-- ===== src/ObjectIdIndex/Lookups.antt =====
-- The loops of model/objectid_index.go, by their effect on a lookup.
use ara.Prelude.{
  String, ◌≡◌, refl, Bool, true, false, not, Option, none, some, [], ◌∷◌, ite, if◌then◌else◌, arith,
  string_key,
}
use ara.GoMap.{Map, get, set, delete, get-set, get-delete, IsDistinct, set-IsDistinct}
use ara.ObjectId.{ObjectId, ObjectIds, object_id_key, object_id_dec}
use ara.ObjectId.Laws.{IsKeyed, IsKeyed-tail}
use ara.ObjectIdIndex.{ModelId, unindex, enter, record_all, stale, stale_among}

-- does an entry found under the kind of `o` hold `o` itself?
abbrev pub holds : Option ObjectId → ObjectId → Bool
holds none o = false
holds (some o') o = ite (object_id_dec o' o) true false

-- the model with these identifiers has `o`
abbrev pub carries : ObjectIds → ObjectId → Bool
carries ids o = holds (get ids o.kind) o

pub get-unindex :
    (test : String → ObjectId → Bool) (ids : ObjectIds) (by : Map ObjectId ModelId) (o : ObjectId)
    → IsDistinct ids
    → IsKeyed ids
    → get (unindex test ids by) o
      ≡ (if carries ids o then (if test o.kind o then none else get by o) else get by o)
unfolding unindex get
get-unindex test [] by o d h = refl
get-unindex test ((k, p) ∷ ids) by o d h =
    let t = IsKeyed-tail k p ids d h in
    ground (
      arith,
      get-unindex test ids (if test k p then delete by p else by) o d.1 t.1,
      get-delete by p o,
    )

pub get-enter :
    (id : ModelId) (ids : ObjectIds) (by : Map ObjectId ModelId) (o : ObjectId)
    → IsDistinct ids
    → IsKeyed ids
    → get (enter id ids by) o ≡ (if carries ids o then some id else get by o)
unfolding enter get
get-enter id [] by o d h = refl
get-enter id ((k, p) ∷ ids) by o d h =
    let t = IsKeyed-tail k p ids d h in
    ground (arith, get-enter id ids (set by p id) o d.1 t.1, get-set by p id o)

abbrev pub latest : Option ObjectId → Option ObjectId → Option ObjectId
latest none old = old
latest (some o) old = some o

pub get-record_all :
    (ids known : ObjectIds) (kind : String)
    → IsDistinct ids
    → IsKeyed ids
    → get (record_all ids known) kind ≡ latest (get ids kind) (get known kind)
unfolding record_all get
get-record_all [] known kind d h = refl
get-record_all ((k, p) ∷ ids) known kind d h =
    let t = IsKeyed-tail k p ids d h in
    ground
      (arith, get-record_all ids (set known p.kind p) kind d.1 t.1, get-set known p.kind p kind)

pub record_all-IsDistinct :
    (ids known : ObjectIds) → IsDistinct known → IsDistinct (record_all ids known)
unfolding record_all
record_all-IsDistinct [] known d = d
record_all-IsDistinct ((k, p) ∷ ids) known d =
    record_all-IsDistinct ids (set known p.kind p) (set-IsDistinct known p.kind p d)

same_object_id : (a b : ObjectId) → a.kind ≡ b.kind → a.value ≡ b.value → a ≡ b
same_object_id a b p q i = record { kind = p i; value = q i }

stale_among-holds :
    (found : Option ObjectId) (o : ObjectId)
    → ((p : ObjectId) → found ≡ some p → p.kind ≡ o.kind)
    → stale_among found o ≡ not (holds found o)
unfolding stale_among
stale_among-holds none o h = refl
stale_among-holds (some p) o h = ground (arith, same_object_id p o (h p refl))

-- For an identifier recorded under its kind, stale means that the model no longer carries it.
pub stale-carries :
    (ids : ObjectIds) (o : ObjectId) → IsKeyed ids → stale ids o.kind o ≡ not (carries ids o)
unfolding stale
stale-carries ids o h = stale_among-holds (get ids o.kind) o (h o.kind)
