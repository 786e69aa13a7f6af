-- ===== src/Subscription/Keys.antt =====
-- The keys of the resources of core/subscription.go, ObjectID.String of model/objectid.go.
use Prim.Native.Char.{Char, code}
use ara.Prelude.{ℕ, String, ◌≡◌, ◌≢◌, refl, ap, ap₂, sym}
use ara.ObjectId.{ObjectId, new}
use ara.Subscription.{append, text}

-- no character of the text is a colon
abbrev pub HasNoColon : String → Type 0
HasNoColon String.[] = Unit
HasNoColon (String.◌∷◌ c s) = (code c ≢ b':') × HasNoColon s

abbrev tail_of : String → String
tail_of String.[] = String.[]
tail_of (String.◌∷◌ c s) = s

abbrev head_code : String → ℕ
head_code String.[] = 0
head_code (String.◌∷◌ c s) = code c

abbrev head_of : Char → String → Char
head_of c String.[] = c
head_of c (String.◌∷◌ d s) = d

split_at_colon :
    (k j v w : String)
    → HasNoColon k
    → HasNoColon j
    → append k (append ":" v) ≡ append j (append ":" w)
    → (k ≡ j) × (v ≡ w)
unfolding append
split_at_colon String.[] String.[] v w h i e = (refl, ap tail_of e)
split_at_colon String.[] (String.◌∷◌ d j) v w h i e = absurd (i.0 (sym (ap head_code e)))
split_at_colon (String.◌∷◌ c k) String.[] v w h i e = absurd (h.0 (ap head_code e))
split_at_colon (String.◌∷◌ c k) (String.◌∷◌ d j) v w h i e =
    let (p, q) = split_at_colon k j v w h.1 i.1 (ap tail_of e) in
    (ap₂ String.◌∷◌ (ap (head_of c) e) p, q)

-- Two identifiers whose kinds have no colon have the same String only if they are the same.
pub text_injective :
    (o p : ObjectId) → HasNoColon o.kind → HasNoColon p.kind → text o ≡ text p → o ≡ p
unfolding text
text_injective o p h i e =
    let (k, v) = split_at_colon o.kind p.kind o.value p.value h i e in
    λ t. record { kind = k t; value = v t }

append_assoc : (a b c : String) → append (append a b) c ≡ append a (append b c)
unfolding append
append_assoc String.[] b c = refl
append_assoc (String.◌∷◌ x a) b c = ap (String.◌∷◌ x) (append_assoc a b c)

-- The identifier of kind a and value b:c is written like the one of kind a:b and value c.
pub text_collides :
    (a b c : String)
    → text (new a (append b (append ":" c))) ≡ text (new (append a (append ":" b)) c)
unfolding text append
text_collides a b c = sym (append_assoc a (append ":" b) (append ":" c))
