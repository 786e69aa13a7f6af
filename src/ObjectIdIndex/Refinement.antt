-- ===== src/ObjectIdIndex/Refinement.antt =====
-- model/objectid_index.go against what it promises: a partial function from identifiers to the
-- model that carries them.
use ara.Prelude.{
  ap, refl, String, ◌≡◌, refl, Bool, true, false, Option, none, some, [], ite, if◌then◌else◌, arith,
  string_dec, string_key,
}
use ara.GoMap.{get, get-[]}
use ara.ObjectId.{ObjectId, ObjectIds, object_id_key}
use ara.ObjectIdIndex.{
  ModelId, ModelInstance, ObjectIdIndex, empty, index, find, remove, record_all,
}
use ara.ObjectIdIndex.Lookups.{
  latest, get-record_all, holds, carries, holds, latest, get-record_all,
}
use ara.ObjectIdIndex.Effect.{
  identifiers, recorded, AreIdentifiers, IsWellFormed, find-index, identifiers-index,
  index-IsWellFormed, find-remove, identifiers-remove, remove-IsWellFormed, []-AreIdentifiers,
}

-- The contract: which model an identifier stands for.
abbrev pub Owners : Type 0
Owners = ObjectId → Option ModelId

abbrev pub belongs : Option ModelId → ModelId → Bool
belongs none id = false
belongs (some j) id = ite (string_dec j id) true false

-- A model takes its identifiers, and gives up the others that it had.
abbrev pub take_over : Owners → ModelId → ObjectIds → Owners
take_over owners id ids o =
    if carries ids o then some id else if belongs (owners o) id then none else owners o

abbrev pub give_up : Owners → ModelId → Owners
give_up owners id o = if belongs (owners o) id then none else owners o

-- Whatever Find answers is recorded for the model that it names.
pub record IsOwned (ix : ObjectIdIndex) : Type 0 where
  pub well_formed : IsWellFormed ix
  pub owned : (o : ObjectId) (id : ModelId) → find ix o ≡ some id → recorded ix id o ≡ true

-- The two maps agree both ways.
pub record IsExact (ix : ObjectIdIndex) : Type 0 where
  pub is_owned : IsOwned ix
  pub open is_owned use *
  pub found : (o : ObjectId) (id : ModelId) → recorded ix id o ≡ true → find ix o ≡ some id

pub empty-IsExact : IsExact empty
unfolding find get
empty-IsExact = record {
  is_owned = record { well_formed = λ id. []-AreIdentifiers; owned = λ o id e. ground arith };
  found = λ o id e. ground arith;
}

recorded-belongs :
    (ix : ObjectIdIndex) (id : ModelId) (o : ObjectId)
    → IsExact ix
    → recorded ix id o ≡ belongs (find ix o) id
recorded-belongs ix id o x = ground (arith, x.found o id, x.owned o id)

recorded-remove :
    (ix : ObjectIdIndex) (id j : ModelId) (o : ObjectId)
    → recorded (remove ix id) j o ≡ ite (string_dec id j) false (recorded ix j o)
recorded-remove ix id j o =
    rw (identifiers-remove ix id j)
      (elim (string_dec id j)
        as (λ d. carries (ite d [] (identifiers ix j)) o ≡ ite d false (recorded ix j o)) [
          | yes p ↦ ground (arith, get-[] {V = ObjectId} o.kind)
          | no n ↦ refl
        ])

pub remove-IsOwned : (ix : ObjectIdIndex) (id : ModelId) → IsOwned ix → IsOwned (remove ix id)
remove-IsOwned ix id x = record {
  well_formed = remove-IsWellFormed ix id x.well_formed;
  owned = λ o j e.
      ground (arith, find-remove ix id o x.well_formed, x.owned o j, recorded-remove ix id j o);
}

-- Delete keeps an index exact.
pub remove-IsExact : (ix : ObjectIdIndex) (id : ModelId) → IsExact ix → IsExact (remove ix id)
remove-IsExact ix id x = record {
  is_owned = remove-IsOwned ix id x.is_owned;
  found = λ o j e. ground (
    arith,
    find-remove ix id o x.well_formed,
    x.found o j,
    x.owned o j,
    x.found o id,
    recorded-remove ix id j o,
  );
}

pub find-remove_refines :
    (ix : ObjectIdIndex) (id : ModelId) (o : ObjectId)
    → IsExact ix
    → find (remove ix id) o ≡ give_up (find ix) id o
find-remove_refines ix id o x =
    ground (arith, find-remove ix id o x.well_formed, recorded-belongs ix id o x)

module _ {M : Type 0} ⦃inst : ModelInstance M⦄ where
  pub recorded-index :
      (ix : ObjectIdIndex) (m : M) (j : ModelId) (o : ObjectId)
      → AreIdentifiers (inst.object_ids m)
      → recorded (index ix m) j o
        ≡ ite
            (string_dec (inst.model_id m) j)
            (holds
              (latest
                (get (inst.object_ids m) o.kind)
                (get (identifiers ix (inst.model_id m)) o.kind))
              o)
            (recorded ix j o)
  recorded-index ix m j o a =
      rw (identifiers-index ix m j)
        (elim (string_dec (inst.model_id m) j)
          as (λ d.
            carries
              (ite d (record_all (inst.object_ids m) (identifiers ix (inst.model_id m)))
                (identifiers ix j))
              o
            ≡ ite d
                (holds
                  (latest (get (inst.object_ids m) o.kind)
                    (get (identifiers ix (inst.model_id m)) o.kind))
                  o)
                (recorded ix j o)) [
                  | yes p ↦
                      ap (λ e. holds e o)
                        (get-record_all (inst.object_ids m) (identifiers ix (inst.model_id m))
                          o.kind a.distinct a.keyed)
                  | no n ↦ refl
                ])

  pub index-IsOwned :
      (ix : ObjectIdIndex) (m : M)
      → AreIdentifiers (inst.object_ids m)
      → IsOwned ix
      → IsOwned (index ix m)
  index-IsOwned ix m a x = record {
    well_formed = index-IsWellFormed ix m a x.well_formed;
    owned = λ o j e.
        ground (arith, find-index ix m o x.well_formed a, x.owned o j, recorded-index ix m j o a);
  }

  pub find-index_refines :
      (ix : ObjectIdIndex) (m : M) (o : ObjectId)
      → AreIdentifiers (inst.object_ids m)
      → IsExact ix
      → find (index ix m) o ≡ take_over (find ix) (inst.model_id m) (inst.object_ids m) o
  find-index_refines ix m o a x =
      ground (arith, find-index ix m o x.well_formed a, recorded-belongs ix (inst.model_id m) o x)

  -- The model keeps every kind that it was indexed under, and claims nothing of another's.
  pub record IsFair (ix : ObjectIdIndex) (m : M) : Type 0 where
    pub identifiers_lem : AreIdentifiers (inst.object_ids m)
    pub keeps_kinds :
        (kind : String)
        → get (inst.object_ids m) kind ≡ none
        → get (identifiers ix (inst.model_id m)) kind ≡ none
    pub unclaimed :
        (o : ObjectId) (id : ModelId)
        → carries (inst.object_ids m) o ≡ true
        → find ix o ≡ some id
        → id ≡ inst.model_id m

  pub index-IsExact : (ix : ObjectIdIndex) (m : M) → IsFair ix m → IsExact ix → IsExact (index ix m)
  index-IsExact ix m f x = record {
    is_owned = index-IsOwned ix m f.identifiers_lem x.is_owned;
    found = λ o j e. ground (
      arith,
      find-index ix m o x.well_formed f.identifiers_lem,
      recorded-index ix m j o f.identifiers_lem,
      x.found o j,
      x.found o (inst.model_id m),
      f.unclaimed o j,
      f.keeps_kinds o.kind,
    );
  }
