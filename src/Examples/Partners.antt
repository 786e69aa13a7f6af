-- ===== src/Examples/Partners.antt =====
-- Credentials, caches and subscriptions at concrete inputs.
use ara.Prelude.{
  dec_le, ℕ_discrete, ℕ, ◌+◌, ◌≤◌, String, ◌≡◌, ◌≢◌, refl, true, none, some, [], ◌∷◌, string_dec,
  string_key, arith, differ,
}
use ara.GoMap.{get, set, delete, IsDistinct}
use ara.GoMap.Keys.{has}
use ara.References.{Reference}
use ara.Credentials
use ara.Credentials.{Credentials, uniq_credentials, split_credentials}
use ara.Credentials.Ownership.{IsExact, empty-IsExact, index-IsExact, index_keeps_others}
use ara.Cache.{Loader, Item, new_cached_item, fetch, Table, add}
use ara.Cache.Freshness.{IsHonest, done, next, fetches, content_age}
use ara.Subscription.{Subscription, create_add_new_resource, text, new_resource, two_minutes}
use ara.Subscription.Keys.{HasNoColon}
use ara.Subscriptions.{Subscriptions, blank, find_or_create_by_kind}
use ara.Subscriptions.Creating.{IsFiled, Serves, find_or_create_by_kind-Serves}
use ara.Examples.Samples.{quay}

abbrev shared : String
shared = "a,b"

free : uniq_credentials Credentials.empty "partner1" shared ≡ true
unfolding uniq_credentials split_credentials string_dec dec_le ℕ_discrete get set delete
    Credentials.none_taken Credentials.find Credentials.index Credentials.index_parts
free = refl

abbrev owned : Credentials
owned = Credentials.index Credentials.empty "partner1" shared

owned-IsExact : IsExact owned
owned-IsExact = index-IsExact Credentials.empty "partner1" shared free empty-IsExact

apart : ◌≢◌ {A = String} "partner1" "partner2"
unfolding string_dec
apart = differ "partner1" "partner2" refl

also_free : uniq_credentials owned "partner2" "c" ≡ true
unfolding uniq_credentials split_credentials string_dec dec_le ℕ_discrete get set delete
    Credentials.none_taken Credentials.find Credentials.index Credentials.index_parts
also_free = refl

owner : Credentials.find owned "a" ≡ some "partner1"
unfolding uniq_credentials split_credentials string_dec dec_le ℕ_discrete get set delete
    Credentials.none_taken Credentials.find Credentials.index Credentials.index_parts
owner = refl

index_keeps_others_example :
    Credentials.find (Credentials.index owned "partner2" "c") "a" ≡ some "partner1"
index_keeps_others_example =
    index_keeps_others owned "partner2" "c" "a" "partner1" also_free owned-IsExact apart owner

a_split : has {K = String} (split_credentials shared) "a" ≡ true
unfolding has split_credentials string_dec dec_le ℕ_discrete
a_split = refl

-- a loader of the clock
abbrev clock : Loader ℕ String
clock now = record { loaded = some now; error = none }

clock-IsHonest : IsHonest (λ d. d) clock
clock-IsHonest = record { stamped = λ now d e. cc; no_data = λ now err e. cc }

abbrev item : Item ℕ String
item = new_cached_item 5 "k" 0 none none

just_loaded : (fetch 5 item (some clock)).0.content ≡ some 5
unfolding fetch new_cached_item
just_loaded = refl

content_age_example : (5 ≤ 5) × (5 ≤ 5 + (fetch 5 item (some clock)).0.life_span)
content_age_example =
    content_age (λ d. d) 5 5 "k" 0 none (fetch 5 item (some clock)).0 5
      (next (fetches 5 item clock clock-IsHonest) done) just_loaded

abbrev table : Table ℕ String
table = (add 0 [] "k" 0 (some 7)).0

-- there is no colon in the kind
plain : HasNoColon "internal"
plain = (
  omega arith,
  (
    omega arith,
    (omega arith, (omega arith, (omega arith, (omega arith, (omega arith, (omega arith, tt)))))),
  ),
)

abbrev subscription : Subscription String
subscription = blank "StopMonitoringCollect"

abbrev at_quay : Reference
at_quay = record { object_id = some quay; type_name = "" }

abbrev subscribed : Subscription String
subscribed = record subscription {
  resources_by_object_id =
      (text quay, record (new_resource at_quay) { subscribed_until = 7 + two_minutes }) ∷ [];
}

created : create_add_new_resource 7 subscription at_quay ≡ some subscribed
unfolding create_add_new_resource set delete
created = refl

abbrev manager : Subscriptions String
manager = ("s1", record subscribed { id = "s1" }) ∷ []

manager-IsDistinct : IsDistinct manager
unfolding get
manager-IsDistinct = (refl, tt)

manager-IsFiled : IsFiled manager
unfolding get
manager-IsFiled id sub e = ground arith

find_or_create_by_kind-Serves_example :
    Serves 2 "StopMonitoringCollect" (find_or_create_by_kind 2 manager "s2" "StopMonitoringCollect")
find_or_create_by_kind-Serves_example =
    find_or_create_by_kind-Serves 2 manager "s2" "StopMonitoringCollect" manager-IsDistinct
      manager-IsFiled
