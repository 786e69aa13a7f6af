-- ===== src/Origins/Status.antt =====
-- When a stop area counts as monitored, and which partners it lost.
use ara.Prelude.{
  String, ◌≡◌, ◌≢◌, ◌↔◌, Bool, true, false, not, Option, none, some, [], arith, string_key,
}
use ara.GoMap.{get, set, IsDistinct, get-set, set-IsDistinct, get-[]}
use ara.GoMap.Loops.{every-get, every_of_get, get-fill}
use ara.GoMap.Keys.{has, has-keys_where}
use ara.Origins.{
  Origins, copy, empty, set_partner_status, monitored, partners_ko, partners_lost, is_lost,
}

abbrev NoneFails : Origins → Type 0
NoneFails o = (partner : String) → get o partner ≢ some false

monitored→NoneFails : (o : Origins) → monitored o ≡ true → NoneFails o
unfolding monitored
monitored→NoneFails o h partner e =
    ground (arith, every-get (λ _ status. status) o partner false h e)

-- Origins with distinct partners are monitored exactly if no partner is down.
pub monitored_iff :
    (o : Origins)
    → IsDistinct o
    → (monitored o ≡ true) ↔ ((partner : String) → get o partner ≢ some false)
unfolding monitored
monitored_iff o d = (
  monitored→NoneFails o,
  λ h. every_of_get (λ _ status. status) o d (λ k v e. ground (arith, h k)),
)

-- PartnersKO lists exactly the partners that are down.
pub has-partners_ko :
    (o : Origins) (partner : String)
    → IsDistinct o
    → (has (partners_ko o) partner ≡ true) ↔ (get o partner ≡ some false)
unfolding partners_ko
has-partners_ko o partner d = ground (arith, has-keys_where (λ _ status. not status) o partner d)

pub get-copy :
    (o : Origins) (partner : String) → IsDistinct o → get (copy o) partner ≡ get o partner
unfolding copy
get-copy o partner d =
    ground (arith, get-fill (λ _ status. status) empty o partner d, get-[] {V = Bool} partner)

-- Of origins with distinct partners, PartnersLost lists exactly the partners that are up and that
-- in the compared origins are down or unknown.
pub has-partners_lost :
    (o compared : Origins) (partner : String)
    → IsDistinct o
    → (has (partners_lost o (some compared)).0 partner ≡ true)
      ↔ ((get o partner ≡ some true) × (get compared partner ≢ some true))
unfolding partners_lost
has-partners_lost o compared partner d =
    ground (arith, has-keys_where (is_lost compared) o partner d)

-- Its flag tells whether it lists any.
pub partners_lost_flag :
    (o : Origins) (compared : Option Origins)
    → ((partners_lost o compared).1 ≡ true) ↔ ((partners_lost o compared).0 ≢ [])
unfolding partners_lost
partners_lost_flag o none = ground arith
partners_lost_flag o (some compared) = ground arith

-- After a status is set, the origins are monitored exactly if it is up and no other partner is down.
pub monitored-set_partner_status :
    (o : Origins) (partner : String) (status : Bool)
    → IsDistinct o
    → (monitored (set_partner_status o partner status) ≡ true)
      ↔ ((status ≡ true) × ((other : String) → other ≢ partner → get o other ≢ some false))
unfolding set_partner_status
monitored-set_partner_status o partner status d =
    let m = monitored_iff (set o partner status) (set-IsDistinct o partner status d) in
    (
      λ h. (
        ground (arith, m.0 h partner, get-set o partner status partner),
        λ other n e. ground (arith, m.0 h other, get-set o partner status other),
      ),
      λ h. m.1 (λ other e. ground (arith, h.1 other, get-set o partner status other)),
    )
