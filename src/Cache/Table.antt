-- ===== src/Cache/Table.antt =====
-- The table of cache/cache_table.go.
use ara.Prelude.{ℕ, String, ◌≡◌, Option, none, some, arith, ite, string_dec, string_key}
use ara.GoMap.{get-set, get-delete}
use ara.Cache.{
  Instant, Loader, value, not_found, Table, add, delete_key, fetch_key, new_cached_item, fetch,
}

module _ {D E : Type 0} where
  -- Data that were added are served without a load, until the item changes.
  pub fetch_key-add :
      (now later : Instant) (table : Table D E) (key : String) (life_span : ℕ) (d : D)
      (f : Option (Loader D E))
      → (fetch_key later (add now table key life_span (some d)).0 key f).1 ≡ value (some d)
  unfolding fetch_key add fetch
  fetch_key-add now later table key life_span d f =
      let item = new_cached_item {E = E} now key life_span (some d) none in
      ground (arith, get-set table key item key)

  -- A deleted key is not found, and no other key is touched.
  pub fetch_key-delete_key :
      (now : Instant) (table : Table D E) (key j : String) (f : Option (Loader D E))
      → (fetch_key now (delete_key table key).0 j f).1
        ≡ ite (string_dec key j) (not_found j) (fetch_key now table j f).1
  unfolding fetch_key delete_key
  fetch_key-delete_key now table key j f = ground (arith, get-delete table key j)
