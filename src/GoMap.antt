-- ===== src/GoMap.antt =====
-- Go's maps as association lists. A `range` loop visits the entries in the order of the list; Go
-- leaves that order open, so what is proved of a loop is proved for every list.
pub mod Loops
pub mod Keys
use ara.Prelude.{◌≡◌, refl, Bool, true, false, ite, Option, none, some, List, [], ◌∷◌, Key, arith}

abbrev pub Map {ℓ} : Type ℓ → Type ℓ → Type ℓ
Map K V = List (K × V)

module _ {ℓ} {K V : Type ℓ} ⦃key : Key K⦄ where
  -- v, ok := m[k]
  unfoldable pub get : Map K V → K → Option V
  get [] k = none
  get ((j, v) ∷ m) k = ite (key.dec j k) (some v) (get m k)

  -- delete(m, k)
  unfoldable pub delete : Map K V → K → Map K V
  delete [] k = []
  delete ((j, v) ∷ m) k = let rest = delete m k in ite (key.dec j k) rest ((j, v) ∷ rest)

  -- m[k] = v
  unfoldable pub set : Map K V → K → V → Map K V
  set m k v = (k, v) ∷ delete m k

  -- No two entries have one key, which holds of every map that Go builds.
  abbrev pub IsDistinct : Map K V → Type ℓ
  IsDistinct [] = Unit
  IsDistinct ((k, v) ∷ m) = (get m k ≡ none) × IsDistinct m

  pub get-delete : (m : Map K V) (k j : K) → get (delete m k) j ≡ ite (key.dec k j) none (get m j)
  unfolding get delete
  get-delete [] k j = ground arith
  get-delete ((i, v) ∷ m) k j = ground (arith, get-delete m k j)

  pub get-set :
      (m : Map K V) (k : K) (v : V) (j : K)
      → get (set m k v) j ≡ ite (key.dec k j) (some v) (get m j)
  unfolding get set
  get-set m k v j = ground (arith, get-delete m k j)

  pub delete-IsDistinct : (m : Map K V) (k : K) → IsDistinct m → IsDistinct (delete m k)
  unfolding delete
  delete-IsDistinct [] k d = d
  delete-IsDistinct ((j, v) ∷ m) k d = ground (arith, delete-IsDistinct m k d.1, get-delete m k j)

  pub set-IsDistinct : (m : Map K V) (k : K) (v : V) → IsDistinct m → IsDistinct (set m k v)
  unfolding set
  set-IsDistinct m k v d = (ground (arith, get-delete m k k), delete-IsDistinct m k d)

  -- len(m) == 0
  unfoldable pub is_empty : Map K V → Bool
  is_empty [] = true
  is_empty (e ∷ m) = false

  pub is_empty-get : (m : Map K V) (k : K) → is_empty m ≡ true → get m k ≡ none
  unfolding is_empty get
  is_empty-get [] k h = refl
  is_empty-get (e ∷ m) k h = cc

pub get-[] {ℓ} : {K V : Type ℓ} ⦃key : Key K⦄ (k : K) → get {V = V} [] k ≡ none
unfolding get
get-[] k = refl
