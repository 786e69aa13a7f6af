-- ===== src/StopMonitoringBroadcaster/Listing.antt =====
-- checkEvent of core/siri_stop_monitoring_subscription_broadcaster.go as a whole.
use ara.Prelude.{◌≡◌, List, [], ◌∷◌, string_key, ◌⊎◌}
use ara.ObjectId.{ObjectId}
use ara.StopVisit.{StopVisit}
use ara.Line.{Line, line_entity}
use ara.TransactionalStopAreas
use ara.VehicleJourneys

abbrev pub IsIn : ObjectId → List ObjectId → Type 0
IsIn o [] = ⊥
IsIn o (p ∷ os) = (o ≡ p) ⊎ IsIn o os
