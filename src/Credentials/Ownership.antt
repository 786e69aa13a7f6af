-- ===== src/Credentials/Ownership.antt =====
-- core/local_credentials_index.go: what Index and Delete do to Find, and what the test
-- UniqCredentials is good for.
use ara.Prelude.{
  String, ◌≡◌, ◌≢◌, refl, true, false, not, ◌&&◌, Option, none, some, List, [], ◌∷◌, ite,
  if◌then◌else◌, arith, string_dec, string_key,
}
use ara.GoMap.{Map, get, set, delete, get-set, get-delete}
use ara.GoMap.Keys.{has}
use ara.Credentials.{
  empty, Credentials, PartnerId, difference, or_nil, delete_all, set_all, index_parts, index,
  split_credentials, find, remove_known, remove, none_taken, uniq_credentials,
}

has-difference :
    (a b : List String) (c : String) → has (difference a b) c ≡ (has a c && not (has b c))
unfolding has difference
has-difference [] b c = refl
has-difference (x ∷ a) b c = ground (arith, has-difference a b c)

get-delete_all :
    (by : Map String PartnerId) (cs : List String) (c : String)
    → get (delete_all by cs) c ≡ (if has cs c then none else get by c)
unfolding delete_all has
get-delete_all by [] c = refl
get-delete_all by (x ∷ cs) c = ground (arith, get-delete_all (delete by x) cs c, get-delete by x c)

get-set_all :
    (by : Map String PartnerId) (cs : List String) (id : PartnerId) (c : String)
    → get (set_all by cs id) c ≡ (if has cs c then some id else get by c)
unfolding set_all has
get-set_all by [] id c = refl
get-set_all by (x ∷ cs) id c = ground (arith, get-set_all (set by x id) cs id c, get-set by x id c)

-- the credentials recorded for a partner
abbrev pub credentials : Credentials → PartnerId → List String
credentials ix id = or_nil (get ix.by_identifier id)

find-index_parts :
    (ix : Credentials) (id : PartnerId) (parts : List String) (c : String)
    → find (index_parts ix id parts) c
      ≡ (if has parts c then some id else if has (credentials ix id) c then none else find ix c)
unfolding find index_parts
find-index_parts ix id parts c =
    let obsolete = difference (credentials ix id) parts in
    ground (
      arith,
      get-set_all (delete_all ix.by_credentials obsolete) parts id c,
      get-delete_all ix.by_credentials obsolete c,
      has-difference (credentials ix id) parts c,
    )

-- After Index the new credentials of the partner find it, those recorded before that it no longer
-- has find nobody, and every other credential finds what it found before.
pub find-index :
    (ix : Credentials) (id : PartnerId) (text c : String)
    → find (index ix id text) c ≡ (
        if has (split_credentials text) c
        then some id
        else if has (credentials ix id) c
        then none
        else find ix c)
unfolding index
find-index ix id text c = find-index_parts ix id (split_credentials text) c

has_nil : (c : String) → has {K = String} [] c ≡ false
unfolding has
has_nil c = refl

find-remove_known :
    (ix : Credentials) (id : PartnerId) (current : Option (List String)) (c : String)
    → find (remove_known ix id current) c ≡ (if has (or_nil current) c then none else find ix c)
unfolding find remove_known
find-remove_known ix id none c = ground (arith, has_nil c)
find-remove_known ix id (some cs) c = get-delete_all ix.by_credentials cs c

-- After Delete the credentials recorded for the partner belong to nobody, the others are as before.
pub find-remove :
    (ix : Credentials) (id : PartnerId) (c : String)
    → find (remove ix id) c ≡ (if has (credentials ix id) c then none else find ix c)
unfolding remove
find-remove ix id c = find-remove_known ix id (get ix.by_identifier id) c

-- The two maps agree: what is recorded for a partner is what belongs to it.
pub record IsExact (ix : Credentials) : Type 0 where
  pub owned : (c : String) (id : PartnerId) → find ix c ≡ some id → has (credentials ix id) c ≡ true
  pub recorded :
      (c : String) (id : PartnerId) → has (credentials ix id) c ≡ true → find ix c ≡ some id

none_taken_lem :
    (ix : Credentials) (id : PartnerId) (parts : List String) (c : String) (other : PartnerId)
    → none_taken ix id parts ≡ true
    → has parts c ≡ true
    → find ix c ≡ some other
    → other ≡ id
unfolding none_taken has find
none_taken_lem ix id [] c other n h f = cc
none_taken_lem ix id (x ∷ parts) c other n h f = ground (arith, none_taken_lem ix id parts c other)

credentials-index_parts :
    (ix : Credentials) (id j : PartnerId) (parts : List String)
    → credentials (index_parts ix id parts) j ≡ ite (string_dec id j) parts (credentials ix j)
unfolding index_parts
credentials-index_parts ix id j parts = ground (arith, get-set ix.by_identifier id parts j)

index_parts-IsExact :
    (ix : Credentials) (id : PartnerId) (parts : List String)
    → none_taken ix id parts ≡ true
    → IsExact ix
    → IsExact (index_parts ix id parts)
index_parts-IsExact ix id parts n x = record {
  owned = λ c j f.
      ground
        (arith, find-index_parts ix id parts c, credentials-index_parts ix id j parts, x.owned c j);
  recorded = λ c j h. ground (
    arith,
    find-index_parts ix id parts c,
    credentials-index_parts ix id j parts,
    x.recorded c j,
    x.recorded c id,
    none_taken_lem ix id parts c j n,
  );
}

-- Where UniqCredentials allows the credentials of a partner, Index keeps the two maps in
-- agreement: a credential finds a partner exactly if it is recorded for that partner.
pub index-IsExact :
    (ix : Credentials) (id : PartnerId) (text : String)
    → uniq_credentials ix id text ≡ true
    → IsExact ix
    → IsExact (index ix id text)
unfolding uniq_credentials index
index-IsExact ix id text n x = index_parts-IsExact ix id (split_credentials text) n x

-- On an index whose two maps agree, where UniqCredentials allows the credentials of a partner,
-- Index leaves every credential of another partner with it.
pub index_keeps_others :
    (ix : Credentials) (id : PartnerId) (text c : String) (other : PartnerId)
    → uniq_credentials ix id text ≡ true
    → IsExact ix
    → other ≢ id
    → find ix c ≡ some other
    → find (index ix id text) c ≡ some other
unfolding uniq_credentials index
index_keeps_others ix id text c other n x ne f = ground (
  arith,
  find-index_parts ix id (split_credentials text) c,
  none_taken_lem ix id (split_credentials text) c other n,
  x.recorded c id,
)

credentials-remove :
    (ix : Credentials) (id j : PartnerId) (o : Option (List String))
    → get ix.by_identifier id ≡ o
    → credentials (remove_known ix id o) j ≡ ite (string_dec id j) [] (credentials ix j)
unfolding remove_known
credentials-remove ix id j none e = ground arith
credentials-remove ix id j (some current) e = ground (arith, get-delete ix.by_identifier id j)

remove_known-IsExact :
    (ix : Credentials) (id : PartnerId) (o : Option (List String))
    → get ix.by_identifier id ≡ o
    → IsExact ix
    → IsExact (remove_known ix id o)
unfolding has
remove_known-IsExact ix id o e x = record {
  owned = λ c j f. ground (
    arith,
    find-remove_known ix id o c,
    credentials-remove ix id j o e,
    x.owned c j,
    x.recorded c id,
  );
  recorded = λ c j h. ground (
    arith,
    find-remove_known ix id o c,
    credentials-remove ix id j o e,
    x.recorded c j,
    x.recorded c id,
  );
}

-- Delete keeps the two maps in agreement.
pub remove-IsExact : (ix : Credentials) (id : PartnerId) → IsExact ix → IsExact (remove ix id)
unfolding remove
remove-IsExact ix id x = remove_known-IsExact ix id (get ix.by_identifier id) refl x

pub empty-IsExact : IsExact empty
unfolding find has get
empty-IsExact = record { owned = λ c id e. ground arith; recorded = λ c id h. ground arith }

-- When a second partner is indexed with the credentials of a first one, a shared credential finds
-- the second partner, and nobody once the first is deleted.
pub credential_lost :
    (ix : Credentials) (first second : PartnerId) (text c : String)
    → first ≢ second
    → has (split_credentials text) c ≡ true
    → (find (index (index ix first text) second text) c ≡ some second)
      × (find (remove (index (index ix first text) second text) first) c ≡ none)
unfolding index
credential_lost ix first second text c ne h =
    let parts = split_credentials text in
    (
      ground (arith, find-index_parts (index_parts ix first parts) second parts c),
      ground (
        arith,
        find-remove (index_parts (index_parts ix first parts) second parts) first c,
        credentials-index_parts (index_parts ix first parts) second first parts,
        credentials-index_parts ix first first parts,
      ),
    )
