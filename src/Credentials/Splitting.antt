-- ===== src/Credentials/Splitting.antt =====
-- The credentials that core/local_credentials_index.go reads from a text.
use ara.Prelude.{
  ite, string_dec, true, String, ◌≡◌, refl, true, false, List, [], ◌∷◌, arith, string_dec,
  string_key, dec_le, ℕ_discrete,
}
use ara.GoMap.Keys.{has}
use ara.Credentials.{split, keep_parts, split_credentials}

has-keep_parts_blank : (parts : List String) → has (keep_parts parts) "" ≡ false
unfolding has keep_parts
has-keep_parts_blank [] = refl
has-keep_parts_blank (part ∷ parts) = ground (arith, has-keep_parts_blank parts)

-- The empty credential is read from the empty text and from no other.
pub has-split_credentials :
    (text : String) → has (split_credentials text) "" ≡ ite (string_dec text "") true false
unfolding split_credentials has
has-split_credentials text = ground (arith, has-keep_parts_blank (split text))

credentials_test : split_credentials " a, b ,,c" ≡ "a" ∷ "b" ∷ "c" ∷ []
unfolding split_credentials string_dec dec_le ℕ_discrete
credentials_test = refl
