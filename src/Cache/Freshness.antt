-- ===== src/Cache/Freshness.antt =====
-- How old the data are that cache/cached_item.go serves.
use ara.Prelude.{ℕ, ◌+◌, ◌≤◌, String, ◌≡◌, ◌≢◌, refl, Option, none, some, arith}
use ara.Cache.{
  Instant, Timer, unset, running, stopped, Item, Loader, min_cache_life_span, new_cached_item,
  keep_loaded, fetch_missing, fetch_content, fetch, expire, stop_timer,
}

-- No item lives shorter than the minimum.
pub life_span-new_cached_item :
    {D E : Type 0} (now : Instant) (key : String) (life_span : ℕ) (content : Option D)
    (loader : Option (Loader D E))
    → min_cache_life_span ≤ (new_cached_item now key life_span content loader).life_span
unfolding new_cached_item
life_span-new_cached_item now key life_span content loader = ground arith

stop_timer-ne-running : (timer : Timer) (t : Instant) → stop_timer timer ≢ running t
unfolding stop_timer
stop_timer-ne-running unset t = λ e. cc
stop_timer-ne-running (running u) t = λ e. cc
stop_timer-ne-running stopped t = λ e. cc

module _ {D E : Type 0} (stamp : D → Instant) where
  -- The loader stamps its data with the instant of the load, and gives none beside an error.
  pub record IsHonest (f : Loader D E) : Type 0 where
    pub stamped : (now : Instant) (d : D) → (f now).loaded ≡ some d → stamp d ≡ now
    pub no_data : (now : Instant) (err : E) → (f now).error ≡ some err → (f now).loaded ≡ none

  -- The data of an item have a timer that ends one life span after their load, and no running timer
  -- is overdue.
  pub record IsFresh (now : Instant) (item : Item D E) : Type 0 where
    pub timed :
        (d : D) → item.content ≡ some d → item.cleanup_timer ≡ running (stamp d + item.life_span)
    pub loaded_before : (d : D) → item.content ≡ some d → stamp d ≤ now
    pub on_time : (t : Instant) → item.cleanup_timer ≡ running t → now ≤ t

  -- What happens to an item: time goes by, but not past the end of a running timer; the timer ends
  -- and the item expires; or the item is fetched.
  pub data Step : Instant × Item D E → Instant × Item D E → Type 0 where
    elapse :
        (now later : Instant) (item : Item D E)
        → now ≤ later
        → ((t : Instant) → item.cleanup_timer ≡ running t → later ≤ t)
        → Step (now, item) (later, item)
    fire :
        (now : Instant) (item : Item D E)
        → item.cleanup_timer ≡ running now
        → Step (now, item) (now, expire item)
    fetches :
        (now : Instant) (item : Item D E) (f : Loader D E)
        → IsHonest f
        → Step (now, item) (now, (fetch now item (some f)).0)

  pub data Steps : Instant × Item D E → Instant × Item D E → Type 0 where
    done : {s : Instant × Item D E} → Steps s s
    next : {s t u : Instant × Item D E} → Step s t → Steps t u → Steps s u

  expire-IsFresh : (now : Instant) (item : Item D E) → IsFresh now item → IsFresh now (expire item)
  unfolding expire stop_timer
  expire-IsFresh now item x = record {
    timed = λ d e. cc;
    loaded_before = λ d e. cc;
    on_time = λ t e. absurd (stop_timer-ne-running item.cleanup_timer t e);
  }

  keep_loaded-IsFresh :
      (now : Instant) (item : Item D E) (f : Loader D E) (err : Option E)
      → IsHonest f
      → (f now).error ≡ err
      → IsFresh now (keep_loaded now item (f now) err).0
  unfolding keep_loaded
  keep_loaded-IsFresh now item f none h e = record {
    timed = λ d q. ground (arith, h.stamped now d);
    loaded_before = λ d q. ground (arith, h.stamped now d);
    on_time = λ t q. ground arith;
  }
  keep_loaded-IsFresh now item f (some err) h e = record {
    timed = λ d q. ground (arith, h.no_data now err e);
    loaded_before = λ d q. ground (arith, h.no_data now err e);
    on_time = λ t q. absurd (stop_timer-ne-running item.cleanup_timer t q);
  }

  fetch_content-IsFresh :
      (now : Instant) (item : Item D E) (f : Loader D E) (content : Option D)
      → IsHonest f
      → IsFresh now item
      → IsFresh now (fetch_content now item (some f) content).0
  unfolding fetch_content fetch_missing
  fetch_content-IsFresh now item f none h x = keep_loaded-IsFresh now item f (f now).error h refl
  fetch_content-IsFresh now item f (some d) h x = x

  abbrev Fresh : Instant × Item D E → Type 0
  Fresh s = IsFresh s.0 s.1

  Step-IsFresh : {s t : Instant × Item D E} → Step s t → Fresh s → Fresh t
  unfolding fetch
  Step-IsFresh (elapse now later item le h) x = record {
    timed = x.timed;
    loaded_before = λ d e. omega (arith, x.loaded_before d e);
    on_time = h;
  }
  Step-IsFresh (fire now item e) x = expire-IsFresh now item x
  Step-IsFresh (fetches now item f h) x = fetch_content-IsFresh now item f item.content h x

  Steps-IsFresh : {s t : Instant × Item D E} → Steps s t → Fresh s → Fresh t
  Steps-IsFresh done x = x
  Steps-IsFresh (next st rest) x = Steps-IsFresh rest (Step-IsFresh st x)

  new-IsFresh :
      (now : Instant) (key : String) (life_span : ℕ) (loader : Option (Loader D E))
      → IsFresh now (new_cached_item now key life_span none loader)
  unfolding new_cached_item
  new-IsFresh now key life_span loader = record {
    timed = λ d e. cc;
    loaded_before = λ d e. cc;
    on_time = λ t e. cc;
  }

  -- After any sequence of steps from a new item with no data, where a step lets time go by up to
  -- the end of a running timer, lets the timer end, or fetches with a loader that stamps its data
  -- with the instant of the load and gives none beside an error, data that the item holds were
  -- loaded no later than now and at most one life span ago.
  pub content_age :
      (start now : Instant) (key : String) (life_span : ℕ) (loader : Option (Loader D E))
      (item : Item D E) (d : D)
      → Steps (start, new_cached_item start key life_span none loader) (now, item)
      → item.content ≡ some d
      → (stamp d ≤ now) × (now ≤ stamp d + item.life_span)
  content_age start now key life_span loader item d steps e =
      let x = Steps-IsFresh steps (new-IsFresh start key life_span loader) in
      (x.loaded_before d e, x.on_time _ (x.timed d e))
