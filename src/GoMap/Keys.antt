-- ===== src/GoMap/Keys.antt =====
-- `for k, v := range m` loops that collect the keys or the values whose entries pass a test.
use ara.Prelude.{
  ◌≡◌, refl, Bool, true, false, ite, if◌then◌else◌, Option, none, some, List, [], ◌∷◌, Key, arith,
}
use ara.GoMap.{Map, get, IsDistinct}

abbrev pub passes {ℓ} : {K V : Type ℓ} → (K → V → Bool) → K → Option V → Bool
passes p k none = false
passes p k (some v) = p k v

module _ {ℓ} {K : Type ℓ} ⦃key : Key K⦄ where
  -- is the key in the slice?
  unfoldable pub has : List K → K → Bool
  has [] k = false
  has (j ∷ ks) k = ite (key.dec j k) true (has ks k)

module _ {ℓ} {K V : Type ℓ} (p : K → V → Bool) where
  -- for k, v := range m { if p(k, v) { ks = append(ks, k) } }
  unfoldable pub keys_where : Map K V → List K
  keys_where [] = []
  keys_where ((k, v) ∷ m) = let rest = keys_where m in if p k v then k ∷ rest else rest

-- at the level of the maps of the program, which holds `Bool` too
module _ {K V : Type 0} ⦃key : Key K⦄ (p : K → V → Bool) where
  has-keys_where_miss : (m : Map K V) (k : K) → get m k ≡ none → has (keys_where p m) k ≡ false
  unfolding has keys_where get
  has-keys_where_miss [] k h = refl
  has-keys_where_miss ((j, v) ∷ m) k h = ground (arith, has-keys_where_miss m k)

  pub has-keys_where :
      (m : Map K V) (k : K) → IsDistinct m → has (keys_where p m) k ≡ passes p k (get m k)
  unfolding has keys_where get
  has-keys_where [] k d = refl
  has-keys_where ((j, v) ∷ m) k d =
      ground (arith, has-keys_where m k d.1, has-keys_where_miss m j d.0)
