-- ===== src/ObjectId/Laws.antt =====
-- Lookups in the identifier maps of model/objectid.go.
use ara.Prelude.{String, ◌≡◌, refl, Option, none, some, [], ◌∷◌, arith, string_key}
use ara.GoMap.{Map, get, set, get-set, get-[], IsDistinct, set-IsDistinct}
use ara.GoMap.Loops.{filled, get-fill, fill-IsDistinct}
use ara.ObjectId.{ObjectId, ObjectIds, new, from_map, respond, response, set_object_id}

-- Every identifier stands under its own kind.
abbrev pub IsKeyed : ObjectIds → Type 0
IsKeyed ids = (kind : String) (o : ObjectId) → get ids kind ≡ some o → o.kind ≡ kind

pub set_object_id-IsKeyed :
    (ids : ObjectIds) (o : ObjectId) → IsKeyed ids → IsKeyed (set_object_id ids o)
unfolding set_object_id
set_object_id-IsKeyed ids o h kind p e = ground (arith, get-set ids o.kind o kind, h kind p)

pub set_object_id-IsDistinct :
    (ids : ObjectIds) (o : ObjectId) → IsDistinct ids → IsDistinct (set_object_id ids o)
unfolding set_object_id
set_object_id-IsDistinct ids o d = set-IsDistinct ids o.kind o d

pub get-from_map :
    (m : Map String String) (kind : String)
    → IsDistinct m
    → get (from_map m) kind ≡ filled new kind (get m kind) none
unfolding from_map
get-from_map m kind d = ground (arith, get-fill new [] m kind d, get-[] {V = ObjectId} kind)

pub from_map-IsKeyed : (m : Map String String) → IsDistinct m → IsKeyed (from_map m)
from_map-IsKeyed m d kind o e = ground (arith, get-from_map m kind d)

pub from_map-IsDistinct : (m : Map String String) → IsDistinct (from_map m)
unfolding from_map
from_map-IsDistinct m = fill-IsDistinct new [] m tt

abbrev value_of : Option ObjectId → Option String → Option String
value_of none old = old
value_of (some o) old = some o.value

-- the tail of a keyed map is keyed
pub IsKeyed-tail :
    (k : String) (o : ObjectId) (ids : ObjectIds)
    → IsDistinct {K = String} ((k, o) ∷ ids)
    → IsKeyed ((k, o) ∷ ids)
    → (o.kind ≡ k) × IsKeyed ids
unfolding get
IsKeyed-tail k o ids d h = (h k o (ground arith), λ j p e. ground (arith, h j p))

get-respond :
    (acc : Map String String) (ids : ObjectIds) (kind : String)
    → IsDistinct ids
    → IsKeyed ids
    → get (respond acc ids) kind ≡ value_of (get ids kind) (get acc kind)
unfolding respond get
get-respond acc [] kind d h = refl
get-respond acc ((k, o) ∷ ids) kind d h =
    let t = IsKeyed-tail k o ids d h in
    ground (
      arith,
      get-respond (set acc o.kind o.value) ids kind d.1 t.1,
      get-set acc o.kind o.value kind,
    )

-- ObjectIDsResponse gives at every kind what the map that NewObjectIDsFromMap was given has there,
-- where its kinds are distinct.
pub response-from_map :
    (m : Map String String) (kind : String)
    → IsDistinct m
    → get (response (from_map m)) kind ≡ get m kind
unfolding response
response-from_map m kind d = ground (
  arith,
  get-respond [] (from_map m) kind (from_map-IsDistinct m) (from_map-IsKeyed m d),
  get-from_map m kind d,
  get-[] {V = String} kind,
)
