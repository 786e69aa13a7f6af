-- ===== src/GoMap/Loops.antt =====
-- `for k, v := range m` loops that fill, filter or empty a map, each with its effect on a lookup.
use ara.Prelude.{
  ◌≡◌, refl, Bool, true, false, if◌then◌else◌, Option, none, some, [], ◌∷◌, Key, arith,
}
use ara.GoMap.{
  Map, get, set, delete, IsDistinct, get-set, get-delete, set-IsDistinct, delete-IsDistinct,
}

module _ {ℓ} {K V W : Type ℓ} ⦃key : Key K⦄ (f : K → V → W) where
  -- for k, v := range m { acc[k] = f(k, v) }
  unfoldable pub fill : Map K W → Map K V → Map K W
  fill acc [] = acc
  fill acc ((k, v) ∷ m) = fill (set acc k (f k v)) m

  -- the entry that the loop leaves at a key
  abbrev pub filled : K → Option V → Option W → Option W
  filled k none old = old
  filled k (some v) old = some (f k v)

  pub get-fill :
      (acc : Map K W) (m : Map K V) (k : K)
      → IsDistinct m
      → get (fill acc m) k ≡ filled k (get m k) (get acc k)
  unfolding fill get
  get-fill acc [] k d = refl
  get-fill acc ((j, v) ∷ m) k d =
      ground (arith, get-fill (set acc j (f j v)) m k d.1, get-set acc j (f j v) k)

  pub fill-IsDistinct : (acc : Map K W) (m : Map K V) → IsDistinct acc → IsDistinct (fill acc m)
  unfolding fill
  fill-IsDistinct acc [] d = d
  fill-IsDistinct acc ((k, v) ∷ m) d =
      fill-IsDistinct (set acc k (f k v)) m (set-IsDistinct acc k (f k v) d)

module _ {ℓ} {K V W : Type ℓ} ⦃key : Key K⦄ (p : K → V → Bool) where
  -- for k, v := range m { if p(k, v) { delete(acc, k) } }
  unfoldable pub sweep : Map K W → Map K V → Map K W
  sweep acc [] = acc
  sweep acc ((k, v) ∷ m) = sweep (if p k v then delete acc k else acc) m

  abbrev pub swept : K → Option V → Option W → Option W
  swept k none old = old
  swept k (some v) old = if p k v then none else old

  pub get-sweep :
      (acc : Map K W) (m : Map K V) (k : K)
      → IsDistinct m
      → get (sweep acc m) k ≡ swept k (get m k) (get acc k)
  unfolding sweep get
  get-sweep acc [] k d = refl
  get-sweep acc ((j, v) ∷ m) k d =
      ground (arith, get-sweep (if p j v then delete acc j else acc) m k d.1, get-delete acc j k)

  pub sweep-IsDistinct : (acc : Map K W) (m : Map K V) → IsDistinct acc → IsDistinct (sweep acc m)
  unfolding sweep
  sweep-IsDistinct acc [] d = d
  sweep-IsDistinct acc ((k, v) ∷ m) d =
      sweep-IsDistinct (if p k v then delete acc k else acc) m
        (ground (arith, delete-IsDistinct acc k d))

module _ {ℓ} {K V : Type ℓ} ⦃key : Key K⦄ where
  -- for _, v := range m { if !p(v) { return false } }; return true
  unfoldable pub every : (K → V → Bool) → Map K V → Bool
  every p [] = true
  every p ((k, v) ∷ m) = let rest = every p m in if p k v then rest else false

  pub every-get :
      (p : K → V → Bool) (m : Map K V) (k : K) (v : V)
      → every p m ≡ true
      → get m k ≡ some v
      → p k v ≡ true
  unfolding every get
  every-get p [] k v h g = ground arith
  every-get p ((j, w) ∷ m) k v h g = ground (arith, every-get p m k v)

  pub every_of_get :
      (p : K → V → Bool) (m : Map K V)
      → IsDistinct m
      → ((k : K) (v : V) → get m k ≡ some v → p k v ≡ true)
      → every p m ≡ true
  unfolding every get
  every_of_get p [] d h = refl
  every_of_get p ((j, w) ∷ m) d h =
      ground (arith, h j w, every_of_get p m d.1 (λ k v g. ground (arith, h k v)))
