-- ===== src/ObjectId.antt =====
-- model/objectid.go: an identifier is a value of some kind, and a model carries one for each kind.
pub mod Laws
use ara.Prelude.{String, ◌≡◌, ap, Option, none, some, [], ◌∷◌, ite, ℕ, Key, string_dec, string_key}
use ara.GoMap.{Map, get, set, is_empty}
use ara.GoMap.Loops.{fill}

pub record ObjectId : Type 0 where
  pub kind : String
  pub value : String

dec_parts : (a b : ObjectId) → Dec (a.kind ≡ b.kind) → Dec (a.value ≡ b.value) → Dec (a ≡ b)
dec_parts a b (yes p) (yes q) = yes (λ i. record { kind = p i; value = q i })
dec_parts a b (no n) q = no (λ e. n (ap (λ o. o.kind) e))
dec_parts a b (yes p) (no n) = no (λ e. n (ap (λ o. o.value) e))

unfoldable pub object_id_dec : Discrete ObjectId
unfolding dec_parts
object_id_dec a b = dec_parts a b (string_dec a.kind b.kind) (string_dec a.value b.value)

instance abbrev pub object_id_key : Key ObjectId
object_id_key = record { dec = object_id_dec }

-- NewObjectID
abbrev pub new : String → String → ObjectId
new kind value = record { kind = kind; value = value }

abbrev pub ObjectIds : Type 0
ObjectIds = Map String ObjectId

-- the loop of NewObjectIDsFromMap
unfoldable pub from_map : Map String String → ObjectIds
from_map m = fill new [] m

-- the loop of ObjectIDsResponse
respond : Map String String → ObjectIds → Map String String
respond acc [] = acc
respond acc ((_, o) ∷ rest) = respond (set acc o.kind o.value) rest

unfoldable pub response : ObjectIds → Map String String
unfolding respond
response ids = respond [] ids

-- consumer.ObjectID(kind)
abbrev pub object_id : ObjectIds → String → Option ObjectId
object_id ids kind = get ids kind

-- consumer.SetObjectID(objectid)
unfoldable pub set_object_id : ObjectIds → ObjectId → ObjectIds
set_object_id ids o = set ids o.kind o

-- What `json.Unmarshal` makes of the text for a `map[string]string`: an error, `null`, or a map.
pub data Decoded : Type 0 where
  malformed null : Decoded
  entries : Map String String → Decoded

pub data Unmarshalled : Type 0 where
  decode_error too_many : Unmarshalled
  unmarshalled : ObjectId → Unmarshalled

-- (*ObjectID).UnmarshalJSON on the receiver `o`; an error leaves the receiver as it was
unfoldable pub unmarshal : ObjectId → Decoded → Unmarshalled
unmarshal o malformed = decode_error
unmarshal o null = unmarshalled o
unmarshal o (entries []) = unmarshalled o
unmarshal o (entries ((kind, value) ∷ [])) = unmarshalled (new kind value)
unmarshal o (entries _) = too_many

-- (*ObjectID).MarshalJSON: the map that is given to `json.Marshal`
unfoldable pub marshal : ObjectId → Decoded
marshal o = entries (set [] o.kind o.value)
