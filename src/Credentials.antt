-- ===== src/Credentials.antt =====
-- core/local_credentials_index.go: which partner a credential belongs to.
pub mod Ownership
pub mod Splitting
use Prim.Native.Char.{Char, code}
use ara.Prelude.{
  ℕ, String, Bool, true, false, not, ◌&&◌, ◌||◌, Option, none, some, List, [], ◌∷◌, ◌++◌, ite,
  if◌then◌else◌, string_dec, string_key, ℕ_discrete, dec_le,
}
use ara.GoMap.{Map, get, set, delete}
use ara.GoMap.Keys.{has}

abbrev pub PartnerId : Type 0
PartnerId = String

pub record Credentials : Type 0 where
  pub by_credentials : Map String PartnerId
  pub by_identifier : Map PartnerId (List String)

-- NewLocalCredentialsIndex
abbrev pub empty : Credentials
empty = record { by_credentials = []; by_identifier = [] }

-- unicode.IsSpace, on the white space of Unicode
abbrev is : ℕ → ℕ → Bool
is a b = ite (ℕ_discrete a b) true false

abbrev between : ℕ → ℕ → ℕ → Bool
between lo hi a = ite (dec_le lo a) (ite (dec_le a hi) true false) false

unfoldable pub is_space : ℕ → Bool
is_space c =
    between 9 13 c
    || is c 32
    || is c 0x85
    || is c 0xa0
    || is c 0x1680
    || between 0x2000 0x200a c
    || is c 0x2028
    || is c 0x2029
    || is c 0x202f
    || is c 0x205f
    || is c 0x3000

-- strings.TrimSpace, on the characters: from the left, then from the right
unfoldable pub trim_left : String → String
unfolding is_space
trim_left String.[] = String.[]
trim_left (String.◌∷◌ c s) =
    let rest = trim_left s in if is_space (code c) then rest else String.◌∷◌ c s

-- a character before a text that is trimmed on the right
unfoldable pub before_trimmed : Char → String → String
unfolding is_space
before_trimmed c String.[] = if is_space (code c) then String.[] else String.◌∷◌ c String.[]
before_trimmed c (String.◌∷◌ d s) = String.◌∷◌ c (String.◌∷◌ d s)

unfoldable pub trim_right : String → String
unfolding before_trimmed
trim_right String.[] = String.[]
trim_right (String.◌∷◌ c s) = before_trimmed c (trim_right s)

unfoldable pub trim_space : String → String
unfolding trim_left trim_right
trim_space s = trim_right (trim_left s)

-- a character in front of the first part
unfoldable pub onto_first : Char → List String → List String
onto_first c [] = String.◌∷◌ c String.[] ∷ []
onto_first c (part ∷ parts) = String.◌∷◌ c part ∷ parts

-- strings.Split(s, ",")
unfoldable pub split : String → List String
unfolding onto_first
split String.[] = String.[] ∷ []
split (String.◌∷◌ c s) =
    let rest = split s in if is (code c) b',' then String.[] ∷ rest else onto_first c rest

-- the loop of splitCredentials
unfoldable pub keep_parts : List String → List String
unfolding trim_space
keep_parts [] = []
keep_parts (part ∷ parts) =
    let rest = keep_parts parts in
    ite (string_dec (trim_space part) "") rest (trim_space part ∷ rest)

-- splitCredentials
unfoldable pub split_credentials : String → List String
unfolding split keep_parts
split_credentials c = ite (string_dec c "") ("" ∷ []) (keep_parts (split c))

-- difference: the elements of the first slice that are not in the second
unfoldable pub difference : List String → List String → List String
difference [] b = []
difference (x ∷ a) b = let rest = difference a b in if has b x then rest else x ∷ rest

abbrev pub or_nil : Option (List String) → List String
or_nil none = []
or_nil (some cs) = cs

-- the loops of Index and Delete over slices
unfoldable pub delete_all : Map String PartnerId → List String → Map String PartnerId
delete_all by [] = by
delete_all by (c ∷ cs) = delete_all (delete by c) cs

unfoldable pub set_all : Map String PartnerId → List String → PartnerId → Map String PartnerId
set_all by [] id = by
set_all by (c ∷ cs) id = set_all (set by c id) cs id

-- Index, once the credentials are split
unfoldable pub index_parts : Credentials → PartnerId → List String → Credentials
unfolding difference delete_all set_all
index_parts ix id parts = record {
  by_credentials =
      set_all (delete_all ix.by_credentials (difference (or_nil (get ix.by_identifier id)) parts))
        parts id;
  by_identifier = set ix.by_identifier id parts;
}

-- Index
unfoldable pub index : Credentials → PartnerId → String → Credentials
unfolding index_parts split_credentials
index ix id local_credentials = index_parts ix id (split_credentials local_credentials)

-- Find
unfoldable pub find : Credentials → String → Option PartnerId
find ix c = get ix.by_credentials c

unfoldable pub remove_known : Credentials → PartnerId → Option (List String) → Credentials
unfolding delete_all
remove_known ix id none = ix
remove_known ix id (some current) = record {
  by_credentials = delete_all ix.by_credentials current;
  by_identifier = delete ix.by_identifier id;
}

-- Delete
unfoldable pub remove : Credentials → PartnerId → Credentials
unfolding remove_known
remove ix id = remove_known ix id (get ix.by_identifier id)

abbrev pub taken_by_other : Option PartnerId → PartnerId → Bool
taken_by_other none id = false
taken_by_other (some x) id = ite (string_dec x id) false true

-- the loop of UniqCredentials
unfoldable pub none_taken : Credentials → PartnerId → List String → Bool
none_taken ix id [] = true
none_taken ix id (c ∷ cs) =
    let rest = none_taken ix id cs in
    if taken_by_other (get ix.by_credentials c) id then false else rest

-- UniqCredentials
unfoldable pub uniq_credentials : Credentials → PartnerId → String → Bool
unfolding none_taken split_credentials
uniq_credentials ix id local_credentials = none_taken ix id (split_credentials local_credentials)
