-- ===== src/SituationUpdates.antt =====
-- model/situation_update_manager.go, with the events of model/general_message_update_event.go.
-- The manager opens a transaction, but situation.Save() goes to the model that the situation comes
-- from, which is the one below the transaction: the transaction saves nothing, and its searches are
-- those of the manager below.
use ara.Prelude.{
  ℕ, String, ◌≡◌, Bool, true, false, Option, none, some, List, [], ◌∷◌, ◌++◌, if◌then◌else◌, arith,
  string_key, Option-cases, inl, inr,
}
use ara.ObjectId.{ObjectId}
use ara.ObjectIdIndex.{ModelId}
use ara.Store.{Found, found, missing, panic}
use ara.References.{Reference, References}
use ara.Schedules.{Time, Stamp, equals}
use ara.Situations
use ara.Situations.{Situation, Situations, Message, situation_entity}
use ara.Transaction.{no_changes}
use ara.Unindexed.{tx_find_by_object_id}
use ara.Updates.{default_identifiers}

pub record SituationAttributes : Type 0 where
  pub format : String
  pub channel : String
  pub references : List Reference
  pub line_sections : List References
  pub messages : List Message
  pub valid_until : Time

pub record SituationUpdateEvent : Type 0 where
  pub origin : String
  pub id : String
  pub created_at : Time
  pub recorded_at : Stamp
  pub situation_object_id : ObjectId
  pub version : ℕ
  pub producer_ref : String
  pub attributes : SituationAttributes

module _ (hash : String → String) where
  abbrev pub created_situation : SituationUpdateEvent → Situation
  created_situation event = record Situations.new {
    origin = event.origin;
    object_ids = default_identifiers hash event.situation_object_id;
  }

  -- the situation found or made; none is the return of the loop
  unfoldable pub situation_for : SituationUpdateEvent → Found Situation → Option Situation
  situation_for event (found situation) =
      if equals situation.recorded_at event.recorded_at then none else some situation
  situation_for event missing = some (created_situation event)
  situation_for event panic = none

  unfoldable pub revised_situation : SituationUpdateEvent → Situation → Situation
  revised_situation event situation = record situation {
    recorded_at = event.recorded_at;
    version = event.version;
    producer_ref = event.producer_ref;
    references = event.attributes.references;
    line_sections = event.attributes.line_sections;
    messages = event.attributes.messages;
    valid_until = event.attributes.valid_until;
    channel = event.attributes.channel;
    format = event.attributes.format;
  }

  unfoldable pub find_situation : Situations → SituationUpdateEvent → Found Situation
  find_situation manager event =
      tx_find_by_object_id no_changes manager.by_identifier event.situation_object_id

  abbrev pub save_if : Situations → ModelId → SituationUpdateEvent → Option Situation → Situations
  save_if manager uuid event none = manager
  save_if manager uuid event (some situation) =
      (Situations.save manager uuid (revised_situation event situation)).0

  abbrev pub is_some : Option Situation → Bool
  is_some none = false
  is_some (some situation) = true

  -- SituationUpdater.Update, each event with the UUID that a new situation would get
  unfoldable pub update_all : List (ModelId × SituationUpdateEvent) → Situations → Situations
  update_all [] manager = manager
  update_all ((uuid, event) ∷ rest) manager =
      let next = situation_for event (find_situation manager event) in
      let after = update_all rest (save_if manager uuid event next) in
      if is_some next then after else manager

  -- Where, after some events, the identifier of the next one finds a situation that is recorded at
  -- the time of that event, as Go compares two times with `==`, UpdateSituation ignores that event
  -- and every later one.
  pub update_all-cut :
      (before rest : List (ModelId × SituationUpdateEvent)) (uuid : ModelId)
      (event : SituationUpdateEvent) (manager : Situations) (situation : Situation)
      → find_situation (update_all before manager) event ≡ found situation
      → situation.recorded_at ≡ event.recorded_at
      → update_all (before ++ (uuid, event) ∷ rest) manager ≡ update_all before manager
  unfolding update_all situation_for
  update_all-cut [] rest uuid event manager situation f t = ground arith
  update_all-cut ((u, first) ∷ before) rest uuid event manager situation f t =
      elim (Option-cases (situation_for first (find_situation manager first))) [
        | inl e ↦ rw e
        | inr (s, e) ↦
            let f' : find_situation
                  (update_all before
                    (save_if manager u first (situation_for first (find_situation manager first))))
                  event
                ≡ found situation =
              ground arith in
            rw e (rw⁻¹ e (update_all-cut before rest uuid event _ situation f' t))
      ]
