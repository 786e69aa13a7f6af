-- ===== src/Origins.antt =====
-- model/stop_area_origin.go: the partners that a stop area is collected from, and whether each
-- answers.
pub mod Status
use ara.Prelude.{
  String, Bool, true, false, not, ◌&&◌, Option, none, some, List, [], ◌∷◌, if◌then◌else◌,
  string_key,
}
use ara.GoMap.{Map, get, set}
use ara.GoMap.Loops.{fill, every}
use ara.GoMap.Keys.{keys_where}

abbrev pub Origins : Type 0
Origins = Map String Bool

-- NewStopAreaOrigins
abbrev pub empty : Origins
empty = []

-- the loops of SetOriginsFromMap, Copy and AllOrigin, each into a new map
unfoldable pub copy : Origins → Origins
copy origins = fill (λ _ status. status) empty origins

unfoldable pub set_partner_status : Origins → String → Bool → Origins
set_partner_status origins partner status = set origins partner status

unfoldable pub new_origin : Origins → String → Origins
unfolding set_partner_status
new_origin origins partner = set_partner_status origins partner true

-- Monitored
unfoldable pub monitored : Origins → Bool
monitored origins = every (λ _ status. status) origins

-- PartnersKO
unfoldable pub partners_ko : Origins → List String
partners_ko origins = keys_where (λ _ status. not status) origins

-- the status read by `comparedOrigins.partners[partner]`: false for an unknown partner
abbrev pub or_false : Option Bool → Bool
or_false none = false
or_false (some status) = status

abbrev pub is_lost : Origins → String → Bool → Bool
is_lost compared partner status = status && not (or_false (get compared partner))

abbrev is_cons : List String → Bool
is_cons [] = false
is_cons (x ∷ xs) = true

-- PartnersLost; a nil argument is `none`
unfoldable pub partners_lost : Origins → Option Origins → List String × Bool
partners_lost origins none = ([], false)
partners_lost origins (some compared) =
    let lost = keys_where (is_lost compared) origins in (lost, is_cons lost)
