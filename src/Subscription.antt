-- ===== src/Subscription.antt =====
-- core/subscription.go, Subscription and SubscribedResource: what a partner has subscribed to. The
-- last states that broadcasters keep with a resource are of some type `S`.
pub mod Keys
pub mod Resources
use ara.Prelude.{
  ℕ, zero, suc, ◌+◌, ◌*◌, String, Bool, true, false, Option, none, some, List, [], ◌∷◌, ite,
  if◌then◌else◌, dec_lt, string_dec, string_key,
}
use ara.GoMap.{Map, get, set, delete}
use ara.ObjectId.{ObjectId}
use ara.References.{Reference}
use ara.Schedules.{Time, zero_time}

abbrev pub SubscriptionId : Type 0
SubscriptionId = String

pub record Resource (S : Type 0) : Type 0 where
  pub reference : Reference
  pub retry_count : ℕ
  pub subscribed_at : Time
  pub subscribed_until : Time
  pub last_states : Map String S
  pub resources_options : Map String String

pub record Subscription (S : Type 0) : Type 0 where
  pub id : SubscriptionId
  pub kind : String
  pub external_id : String
  pub resources_by_object_id : Map String (Resource S)
  pub subscription_options : Map String String

unfoldable pub append : String → String → String
append String.[] t = t
append (String.◌∷◌ c s) t = String.◌∷◌ c (append s t)

-- ObjectID.String
unfoldable pub text : ObjectId → String
unfolding append
text o = append o.kind (append ":" o.value)

abbrev pub two_minutes : ℕ
two_minutes = 120 * 1000000000

-- what a lookup in a map of texts reads: the empty text where there is none
abbrev pub or_blank : Option String → String
or_blank none = ""
or_blank (some s) = s

module _ {S : Type 0} where
  -- NewResource
  abbrev pub new_resource : Reference → Resource S
  new_resource ref = record {
    reference = ref;
    retry_count = 0;
    subscribed_at = zero_time;
    subscribed_until = zero_time;
    last_states = [];
    resources_options = [];
  }

  -- LastState
  abbrev pub last_state : Resource S → String → Option S
  last_state sr key = get sr.last_states key

  -- SetLastState
  abbrev pub set_last_state : Resource S → String → S → Resource S
  set_last_state sr key l = record sr { last_states = set sr.last_states key l }

  -- SetSubscriptionOption
  abbrev pub set_subscription_option : Subscription S → String → String → Subscription S
  set_subscription_option sub key value = record sub {
    subscription_options = set sub.subscription_options key value;
  }

  -- SubscriptionOption
  unfoldable pub subscription_option : Subscription S → String → String
  subscription_option sub key = or_blank (get sub.subscription_options key)

  -- Resource
  unfoldable pub resource : Subscription S → ObjectId → Option (Resource S)
  resource sub o = get sub.resources_by_object_id (text o)

  -- AddNewResource, at the key of its identifier; a nil identifier is a panic
  unfoldable pub put_resource :
      Subscription S → Option ObjectId → Resource S → Option (Subscription S)
  put_resource sub none r = none
  put_resource sub (some o) r =
      some (record sub { resources_by_object_id = set sub.resources_by_object_id (text o) r })

  unfoldable pub add_new_resource : Subscription S → Resource S → Option (Subscription S)
  unfolding put_resource
  add_new_resource sub r = put_resource sub r.reference.object_id r

  -- CreateAddNewResource
  unfoldable pub create_add_new_resource :
      Time → Subscription S → Reference → Option (Subscription S)
  unfolding put_resource
  create_add_new_resource now sub ref =
      put_resource sub ref.object_id
        (record (new_resource ref) { subscribed_until = now + two_minutes })

  -- DeleteResource
  unfoldable pub delete_resource : Subscription S → String → Subscription S
  delete_resource sub key = record sub {
    resources_by_object_id = delete sub.resources_by_object_id key;
  }

  unfoldable pub len : Map String (Resource S) → ℕ
  len [] = 0
  len (e ∷ m) = len m + 1

  -- ResourcesLen
  unfoldable pub resources_len : Subscription S → ℕ
  unfolding len
  resources_len sub = len sub.resources_by_object_id

  -- UniqueResource: nil unless there is exactly one
  unfoldable pub unique : Map String (Resource S) → Option (Resource S)
  unique ((_, r) ∷ []) = some r
  unique _ = none

  unfoldable pub unique_resource : Subscription S → Option (Resource S)
  unfolding unique
  unique_resource sub = unique sub.resources_by_object_id

  -- Resources, at the time of the clock: the argument of the method is not used
  unfoldable pub live : Time → Map String (Resource S) → List (Resource S)
  live now [] = []
  live now ((_, r) ∷ rest) =
      let others = live now rest in ite (dec_lt now r.subscribed_until) (r ∷ others) others

  unfoldable pub resources : Time → Subscription S → List (Resource S)
  unfolding live
  resources clock_now sub = live clock_now sub.resources_by_object_id
