-- ===== src/Connectors.antt =====
-- core/partner.go, the connectors of a partner by their type; a connector is of some type `C`.
use ara.Prelude.{
  ◌≡◌, refl, String, Bool, true, false, ◌&&◌, ◌||◌, Option, none, some, List, [], ◌∷◌, ite,
  if◌then◌else◌, string_dec, string_key,
}
use ara.GoMap.{Map, get, set, delete}
use ara.CollectSettings.{include}

abbrev pub dispatcher : String
dispatcher = "siri-subscription-request-dispatcher"

abbrev pub same : String → String → Bool
same a b = ite (string_dec a b) true false

module _ {C : Type 0} where
  abbrev pub has_connector : Map String C → String → Bool
  has_connector connectors kind = elim (get connectors kind) [ none ↦ false | some c ↦ true ]

  abbrev pub first_of : Option C → Option C → Option C
  first_of none other = other
  first_of (some c) other = some c

  -- hasSubscribers
  unfoldable pub has_subscribers : Map String C → Bool
  has_subscribers connectors =
      has_connector connectors "siri-stop-monitoring-subscription-broadcaster"
      || has_connector connectors "siri-general-message-subscription-broadcaster"
      || has_connector connectors "siri-estimated-timetable-subscription-broadcaster"

  -- the body of the loop of cleanConnectors; the binary search in the sorted slice is a search
  unfoldable pub cleaned : List String → Map String C → String → Map String C
  unfolding include has_subscribers
  cleaned types connectors kind =
      if same kind dispatcher && has_subscribers connectors
      then connectors
      else if include types kind
      then connectors
      else delete connectors kind

  -- the loop, over the connectors there were at its start, in some order
  unfoldable pub clean : List String → Map String C → Map String C → Map String C
  unfolding cleaned
  clean types [] connectors = connectors
  clean types ((kind, _) ∷ rest) connectors = clean types rest (cleaned types connectors kind)

  abbrev pub add_made : Map String C → String → Option C → Map String C
  add_made connectors kind none = connectors
  add_made connectors kind (some c) = set connectors kind c

  -- the loops that create the connectors there are not yet; `factory` is none where there is no
  -- factory for the type
  unfoldable pub create_connectors : (String → Option C) → List String → Map String C → Map String C
  create_connectors factory [] connectors = connectors
  create_connectors factory (kind ∷ kinds) connectors = create_connectors factory kinds (
      if has_connector connectors kind then connectors else add_made connectors kind (factory kind))

abbrev pub broadcaster : String
broadcaster = "siri-stop-monitoring-subscription-broadcaster"

abbrev pub two : {C : Type 0} → String → C → String → C → Map String C
two a c b d = (a, c) ∷ (b, d) ∷ []

abbrev pub one : {C : Type 0} → String → C → Map String C
one a c = (a, c) ∷ []

-- Where a partner has the subscription dispatcher and a subscription broadcaster, and its types name
-- neither, the dispatcher stays if the loop of cleanConnectors comes to it before the broadcaster,
-- and goes with it if the loop comes to it after.
pub clean-order :
    {C : Type 0} (types : List String) (c d : C)
    → include types dispatcher ≡ false
    → include types broadcaster ≡ false
    → (clean types (two dispatcher c broadcaster d) (two dispatcher c broadcaster d)
        ≡ one dispatcher c)
      × (clean types (two broadcaster d dispatcher c) (two broadcaster d dispatcher c) ≡ [])
unfolding clean cleaned has_subscribers get delete string_dec
clean-order types c d n m = (rw m refl, rw (m, n) refl)
