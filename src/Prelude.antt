-- ===== src/Prelude.antt =====
-- Names that the other modules share: the libraries', passed on, and a few tests and lemmas.
use text.Mathlib.Text.{◌==◌ as str_eq}
use text.Mathlib.TextEquality.{eq_iff}
pub use Prim.Native.Nat.{ℕ, zero, suc, ◌+◌, ◌-◌, ◌*◌, ◌≤◌, ◌<◌}
pub use Prim.Native.String.{String}
pub use mathlib.Core.Path.{◌≡◌, refl, sym, ap, ap₂, ◌∙◌, subst, fun_ext}
pub use mathlib.Core.Logic.{◌≢◌, ◌↔◌, ◌⊎◌, inl, inr, ite, if_pos, if_neg}
pub use mathlib.Core.Bool.{Bool, true, false, not, ◌&&◌, ◌||◌}
pub use mathlib.Core.Option.{Option, none, some}
pub use mathlib.Core.List.{List, [], ◌∷◌, ◌++◌, map}
pub use native.Mathlib.Omega.{arith}
unfoldable pub use native.Mathlib.Decide.{dec_lt, dec_le, ℕ_discrete}

infix 1 if◌then◌else◌
abbrev pub if◌then◌else◌ {ℓ} : {A : Type ℓ} → Bool → A → A → A
if true then x else y = x
if false then x else y = y

-- To split on a computed value and keep the equation.
pub Bool-cases : (b : Bool) → (b ≡ true) ⊎ (b ≡ false)
Bool-cases true = inl refl
Bool-cases false = inr refl

pub Option-cases {ℓ} : {A : Type ℓ} (o : Option A) → (o ≡ none) ⊎ ((a : A) × (o ≡ some a))
Option-cases none = inl refl
Option-cases (some a) = inr (a, refl)

-- Equality of texts as a decision: the branch taken hands its proof to the tactics.
dec_of_test : (a b : String) (t : Bool) → str_eq a b ≡ t → Dec (a ≡ b)
dec_of_test a b true e = yes ((eq_iff a b).0 e)
dec_of_test a b false e = no (λ p. cc ((eq_iff a b).1 p))

unfoldable pub string_dec : Discrete String
unfolding dec_of_test
string_dec a b = dec_of_test a b (str_eq a b) refl

-- A type that Go can use as the key of a map.
pub record Key {ℓ} (K : Type ℓ) : Type ℓ where
  pub dec : Discrete K

instance abbrev pub string_key : Key String
string_key = record { dec = string_dec }

-- Two texts that the test tells apart.
pub differ : (a b : String) → ite (string_dec a b) true false ≡ false → a ≢ b
differ a b h = λ e. ground arith
