-- ===== src/Subscription/Resources.antt =====
-- The resources of a subscription of core/subscription.go.
use ara.Prelude.{
  ◌+◌, String, ◌≡◌, ◌≢◌, ◌↔◌, refl, none, some, [], ◌∷◌, ite, arith, string_dec, string_key,
}
use ara.GoMap.{Map, get-set}
use ara.ObjectId.{ObjectId}
use ara.References.{Reference}
use ara.Schedules.{Time}
use ara.Subscription.{
  Subscription, Resource, text, new_resource, resource, put_resource, create_add_new_resource, len,
  resources_len, unique, unique_resource, two_minutes,
}

module _ {S : Type 0} where
  -- Where CreateAddNewResource succeeds, an identifier written like that of the reference finds
  -- the new resource, which lasts two minutes from now, and any other finds what it found before.
  pub resource-create_add_new_resource :
      (now : Time) (sub : Subscription S) (ref : Reference) (o p : ObjectId) (sub' : Subscription S)
      → ref.object_id ≡ some o
      → create_add_new_resource now sub ref ≡ some sub'
      → resource sub' p
        ≡ ite
            (string_dec (text o) (text p))
            (some (record (new_resource ref) { subscribed_until = now + two_minutes }))
            (resource sub p)
  unfolding create_add_new_resource put_resource resource
  resource-create_add_new_resource now sub ref o p sub' named e =
      let r = record (new_resource {S = S} ref) { subscribed_until = now + two_minutes } in
      ground (arith, get-set sub.resources_by_object_id (text o) r (text p))

  -- Creating a resource panics exactly on a reference with no identifier.
  pub create_add_new_resource-eq-none_iff :
      (now : Time) (sub : Subscription S) (ref : Reference)
      → (create_add_new_resource now sub ref ≡ none) ↔ (ref.object_id ≡ none)
  unfolding create_add_new_resource put_resource
  create_add_new_resource-eq-none_iff now sub ref = ground arith

  -- UniqueResource answers exactly where there is one resource.
  pub unique_resource-eq-none_iff :
      (sub : Subscription S) → (unique_resource sub ≡ none) ↔ (resources_len sub ≢ 1)
  unfolding unique_resource resources_len
  unique_resource-eq-none_iff sub = unique_len sub.resources_by_object_id
    where
      unique_len : (m : Map String (Resource S)) → (unique m ≡ none) ↔ (len m ≢ 1)
      unique_len [] = (λ _. omega arith, λ _. refl)
      unique_len (e ∷ []) = (λ h. cc, λ n. absurd (n refl))
      unique_len (e ∷ f ∷ m) = (λ _. omega arith, λ _. refl)
