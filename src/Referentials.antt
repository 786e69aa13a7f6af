-- ===== src/Referentials.antt =====
-- core/referential.go: the referentials, what an API call or a Save does to one, and the time at which
-- its model is reloaded. A subscriber is the function that a collect manager calls with each event.
-- `Local` is what Year, Month, Day, Hour and Minute read of a time in its location: its day is the
-- number of a day of the calendar, in which time.Date counts on beyond the end of a month, and
-- `beyond` the nanoseconds of the minute. `date` is time.Date in the location of the clock.
pub mod Validation
use ara.Prelude.{
  ℕ, ◌+◌, ◌*◌, ◌<◌, ◌≤◌, String, ◌≡◌, refl, Bool, true, false, ◌&&◌, ◌||◌, Option, none, some, List,
  [], ◌∷◌, ◌++◌, ap, fun_ext, ◌∙◌, Bool-cases, inl, inr, ite, if◌then◌else◌, string_dec, string_key,
  dec_lt, dec_le, ℕ_discrete, arith,
}
use ara.GoMap.{Map, get, set, delete}
use ara.Schedules.{Time}
use ara.ObjectIdIndex.{ModelId}
use ara.StopAreas
use ara.Model.{MemoryModel}
use ara.Connectors.{same}
use ara.PartnerSettings.{Settings, setting}
use ara.UpdateEvents.{UpdateEvent, status_event}
use ara.Updates.{bind}

abbrev pub Subscriber : Type 0
Subscriber = MemoryModel → UpdateEvent → Option MemoryModel

pub record Referential : Type 0 where
  pub id : String
  pub organisation_id : String
  pub slug : String
  pub name : String
  pub settings : Settings
  pub tokens : List String
  pub next_reload_at : Time
  pub update_subscribers : List Subscriber

-- the definition that the API reads and writes
pub record ReferentialDefinition : Type 0 where
  pub organisation_id : String
  pub slug : String
  pub name : String
  pub settings : Settings
  pub tokens : List String

pub record Local : Type 0 where
  pub day : ℕ
  pub hour : ℕ
  pub minute : ℕ
  pub beyond : ℕ

abbrev pub minute_length : ℕ
minute_length = 60 * 1000000000

-- the nanoseconds on the clock on the wall, from the first day on
abbrev pub wall : Local → ℕ
wall t = ((t.day * 24 + t.hour) * 60 + t.minute) * minute_length + t.beyond

-- a local time as the clock reads it
pub record IsRead (t : Local) : Type 0 where
  pub hours : t.hour < 24
  pub minutes : t.minute < 60
  pub nanoseconds : t.beyond < minute_length

-- the test of setNextReloadAt: is it past the hour today?
abbrev pub is_past : Local → ℕ → ℕ → Bool
is_past now hour minute =
    ite (dec_lt hour now.hour) true false
    || (ite (ℕ_discrete now.hour hour) true false && ite (dec_le minute now.minute) true false)

-- setNextReloadAt, with the hour and minute of the setting
unfoldable pub next_reload : (Local → Time) → Local → ℕ → ℕ → Time
next_reload date now hour minute = date (record {
  day = if is_past now hour minute then now.day + 1 else now.day;
  hour = hour;
  minute = minute;
  beyond = 0;
})

-- The time is what the clock on the wall shows in one of the zones of the location, and `west` more,
-- less an offset of `shift` at most: the zones of a location are `shift` apart at most. (With the
-- days counted from the second one on, `west` is a day less the offset of the zone that is furthest
-- to the west.)
abbrev pub IsTimeOf : ℕ → ℕ → Local → Time → Type 0
IsTimeOf west shift l t = (o : ℕ) × (wall l + west ≡ t + o) × (o ≤ shift)

-- Where the hour and the minute are those of a day, and the zones of the location are apart by a
-- shift at most (as when summer time ends), the next reload is at most that shift before now,
-- exclusively, and no later than a day and that shift from now.
pub next_reload-bounded :
    (date : Local → Time) (west shift : ℕ) (now : Time) (reading : Local) (hour minute : ℕ)
    → ((l : Local) → IsTimeOf west shift l (date l))
    → IsTimeOf west shift reading now
    → IsRead reading
    → hour < 24
    → minute < 60
    → (now < next_reload date reading hour minute + shift)
      × (next_reload date reading hour minute ≤ now + 24 * 60 * minute_length + shift)
unfolding next_reload
next_reload-bounded date west shift now reading hour minute zoned (p, e, p₁) r h m =
    let a = r.hours in
    let b = r.minutes in
    let c = r.nanoseconds in
    let next : Local = record {
      day = if is_past reading hour minute then reading.day + 1 else reading.day;
      hour = hour;
      minute = minute;
      beyond = 0;
    } in
    let (q, f, q₁) = zoned next in
    let later : (wall reading < wall next) × (wall next ≤ wall reading + 24 * 60 * minute_length) =
      elim (Bool-cases (is_past reading hour minute)) [
        | inl s ↦ (rw s (ground arith), rw s (ground arith))
        | inr s ↦ (rw s (ground arith), rw s (ground arith))
      ] in
    let after = later.0 in let soon = later.1 in (omega arith, omega arith)

-- SetDefinition; `reload_time` reads the hour and the minute of the setting, 4:00 unless it has five
-- bytes
unfoldable pub set_definition :
    (Local → Time) → (String → ℕ × ℕ) → Local → Referential → ReferentialDefinition → Referential
unfolding setting next_reload
set_definition date reload_time now referential api =
    let (hour, minute) = reload_time (setting api.settings "model.reload_at") in
    record {
      id = referential.id;
      organisation_id = api.organisation_id;
      slug = api.slug;
      name = api.name;
      settings = api.settings;
      tokens = api.tokens;
      next_reload_at =
          if same (setting referential.settings "model.reload_at")
            (setting api.settings "model.reload_at")
          then referential.next_reload_at
          else next_reload date now hour minute;
      update_subscribers = referential.update_subscribers;
    }

-- HandleUpdateEvent of the collect manager
abbrev pub handle_update_event : Referential → Subscriber → Referential
handle_update_event referential subscriber = record referential {
  update_subscribers = referential.update_subscribers ++ subscriber ∷ [];
}

-- BroadcastUpdateEvent of the collect manager; none is a panic of a subscriber
unfoldable pub broadcast_to : List Subscriber → MemoryModel → UpdateEvent → Option MemoryModel
broadcast_to [] model event = some model
broadcast_to (subscriber ∷ rest) model event =
    bind (subscriber model event) (λ after. broadcast_to rest after event)

unfoldable pub broadcast_update_event : Referential → MemoryModel → UpdateEvent → Option MemoryModel
unfolding broadcast_to
broadcast_update_event referential model event =
    broadcast_to referential.update_subscribers model event

-- the loop of HandlePartnerStatusChange
unfoldable pub report_status :
    Referential → String → Bool → List ModelId → MemoryModel → Option MemoryModel
unfolding broadcast_update_event
report_status referential partner status [] model = some model
report_status referential partner status (id ∷ ids) model =
    bind
      (broadcast_update_event referential model
        (status_event (record { stop_area_id = id; partner = partner; status = status })))
      (λ after. report_status referential partner status ids after)

-- HandlePartnerStatusChange
unfoldable pub handle_partner_status_change :
    Referential → String → Bool → MemoryModel → Option MemoryModel
unfolding report_status
handle_partner_status_change referential partner status model =
    report_status referential partner status (StopAreas.find_by_origin model.stop_areas partner)
      model

abbrev pub Referentials : Type 0
Referentials = Map String Referential

-- MemoryReferentials.Find, FindBySlug, Delete; none is nil
unfoldable pub find : Referentials → String → Option Referential
find manager id = get manager id

unfoldable pub find_by_slug : Referentials → String → Option Referential
find_by_slug [] slug = none
find_by_slug ((_, referential) ∷ rest) slug =
    let later = find_by_slug rest slug in
    if same referential.slug slug then some referential else later

unfoldable pub remove : Referentials → Referential → Referentials
remove manager referential = delete manager referential.id

-- Save; `updater` is the Update of a new update manager. The situation subscribers are alike, and
-- left out.
unfoldable pub saved : Subscriber → String → Referential → Referential
saved updater uuid referential =
    handle_update_event
      (ite (string_dec referential.id "") (record referential { id = uuid }) referential) updater

unfoldable pub save : Referentials → Subscriber → String → Referential → Referentials × Referential
unfolding saved
save manager updater uuid referential =
    let r = saved updater uuid referential in (set manager r.id r, r)

broadcast_to-append :
    (xs ys : List Subscriber) (model : MemoryModel) (event : UpdateEvent)
    → broadcast_to (xs ++ ys) model event
      ≡ bind (broadcast_to xs model event) (λ after. broadcast_to ys after event)
unfolding broadcast_to
broadcast_to-append [] ys model event = refl
broadcast_to-append (x ∷ xs) ys model event =
    elim (x model event)
      as (λ o.
        bind o (λ after. broadcast_to (xs ++ ys) after event)
        ≡ bind (bind o (λ after. broadcast_to xs after event))
            (λ after. broadcast_to ys after event)) [
              | none ↦ refl
              | some after ↦ broadcast_to-append xs ys after event
            ]

subscribers-save :
    (manager : Referentials) (updater : Subscriber) (uuid : String) (referential : Referential)
    → (save manager updater uuid referential).1.update_subscribers
      ≡ referential.update_subscribers ++ updater ∷ []
unfolding save saved
subscribers-save manager updater uuid referential = ground arith

bind-some_id : (o : Option MemoryModel) → bind o (λ after. some after) ≡ o
bind-some_id none = refl
bind-some_id (some m) = refl

broadcast_to-one :
    (updater : Subscriber) (model : MemoryModel) (event : UpdateEvent)
    → broadcast_to (updater ∷ []) model event ≡ updater model event
unfolding broadcast_to
broadcast_to-one updater model event = bind-some_id (updater model event)

-- Save adds an update manager to those that there are: with each further Save of a referential,
-- every event is handled once more, after the others have handled it.
pub broadcast_update_event-save :
    (manager : Referentials) (updater : Subscriber) (uuid : String) (referential : Referential)
    (model : MemoryModel) (event : UpdateEvent)
    → broadcast_update_event (save manager updater uuid referential).1 model event
      ≡ bind (broadcast_update_event referential model event) (λ after. updater after event)
unfolding broadcast_update_event
broadcast_update_event-save manager updater uuid referential model event =
    ap (λ s. broadcast_to s model event) (subscribers-save manager updater uuid referential)
    ∙ broadcast_to-append referential.update_subscribers (updater ∷ []) model event
    ∙ ap (bind (broadcast_to referential.update_subscribers model event))
        (fun_ext (λ after. broadcast_to-one updater after event))
