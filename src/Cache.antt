-- ===== src/Cache.antt =====
-- cache/cached_item.go and cache/cache_table.go: values that are loaded on demand and dropped after
-- a life span. Durations are nanoseconds. A nil interface is `none`.
pub mod Freshness
pub mod Table
use ara.Prelude.{
  List, ℕ, ◌+◌, ◌*◌, String, Bool, true, false, Option, none, some, [], ◌∷◌, ite, if◌then◌else◌,
  dec_lt, string_key,
}
use ara.GoMap.{Map, get, set, delete}
use ara.GoMap.Loops.{sweep}

abbrev pub Instant : Type 0
Instant = ℕ

abbrev pub second : ℕ
second = 1000000000

-- MIN_CACHE_LIFESPAN
abbrev pub min_cache_life_span : ℕ
min_cache_life_span = 10 * second

-- DEFAULT_CACHE_LIFESPAN
abbrev pub default_cache_life_span : ℕ
default_cache_life_span = 60 * second

-- the cleanup timer: never started, running until an instant, or stopped or fired
pub data Timer : Type 0 where
  unset : Timer
  running : Instant → Timer
  stopped : Timer

-- What a loader returns: its data, and its error if there is one.
pub record Loaded (D : Type 0) (E : Type 0) : Type 0 where
  pub loaded : Option D
  pub error : Option E

-- A loader reads the world at the instant of the call.
abbrev pub Loader : Type 0 → Type 0 → Type 0
Loader D E = Instant → Loaded D E

pub record Item (D : Type 0) (E : Type 0) : Type 0 where
  pub key : String
  pub content : Option D
  pub life_span : ℕ
  pub created_at : Instant
  pub cleanup_timer : Timer
  pub load_data : Option (Loader D E)

-- a result `(data, err)`
pub data Answer (D : Type 0) (E : Type 0) : Type 0 where
  value : Option D → Answer D E
  failure : E → Answer D E
  not_found : String → Answer D E

-- item.cleanupTimer.Stop() behind its nil test
unfoldable pub stop_timer : Timer → Timer
stop_timer unset = unset
stop_timer (running t) = stopped
stop_timer stopped = stopped

module _ {D E : Type 0} where
  -- NewCachedItem
  unfoldable pub new_cached_item : Instant → String → ℕ → Option D → Option (Loader D E) → Item D E
  new_cached_item now key life_span content loader = record {
    key = key;
    life_span = ite (dec_lt life_span min_cache_life_span) default_cache_life_span life_span;
    created_at = now;
    content = content;
    cleanup_timer = unset;
    load_data = loader;
  }

  -- the end of Fetch: the loaded data are kept, also beside an error, and the timer is started
  -- where there is none
  unfoldable pub keep_loaded : Instant → Item D E → Loaded D E → Option E → Item D E × Answer D E
  keep_loaded now item r none = (
    record item { content = r.loaded; cleanup_timer = running (now + item.life_span) },
    value r.loaded,
  )
  keep_loaded now item r (some err) = (
    record item { content = r.loaded; cleanup_timer = stop_timer item.cleanup_timer },
    failure err,
  )

  unfoldable pub fetch_missing : Instant → Item D E → Option (Loader D E) → Item D E × Answer D E
  unfolding keep_loaded
  fetch_missing now item none = (item, value none)
  fetch_missing now item (some f) = keep_loaded now item (f now) (f now).error

  unfoldable pub fetch_content :
      Instant → Item D E → Option (Loader D E) → Option D → Item D E × Answer D E
  unfolding fetch_missing
  fetch_content now item f none = fetch_missing now item f
  fetch_content now item f (some d) = (item, value (some d))

  -- Fetch
  unfoldable pub fetch : Instant → Item D E → Option (Loader D E) → Item D E × Answer D E
  unfolding fetch_content
  fetch now item f = fetch_content now item f item.content

  -- Value
  unfoldable pub item_value : Instant → Item D E → Item D E × Answer D E
  unfolding fetch
  item_value now item = fetch now item item.load_data

  -- Stop
  unfoldable pub stop : Item D E → Item D E
  unfolding stop_timer
  stop item = record item { cleanup_timer = stop_timer item.cleanup_timer }

  -- expire
  unfoldable pub expire : Item D E → Item D E
  unfolding stop_timer
  expire item = record item { content = none; cleanup_timer = stop_timer item.cleanup_timer }

  -- SetData
  abbrev pub set_data : Item D E → Option D → Item D E
  set_data item content = record item { content = content }

  -- SetDataLoader
  abbrev pub set_data_loader : Item D E → Option (Loader D E) → Item D E
  set_data_loader item f = record item { load_data = f }

-- CacheTable
abbrev pub Table : Type 0 → Type 0 → Type 0
Table D E = Map String (Item D E)

module _ {D E : Type 0} where
  -- Add
  unfoldable pub add : Instant → Table D E → String → ℕ → Option D → Table D E × Item D E
  unfolding new_cached_item
  add now table key life_span content =
      let item = new_cached_item now key life_span content none in (set table item.key item, item)

  -- CacheTable.Delete: the table, and the item that was deleted
  unfoldable pub delete_found :
      Table D E → String → Option (Item D E) → Table D E × Option (Item D E)
  delete_found table key none = (table, none)
  delete_found table key (some item) = (delete table key, some (stop item))

  unfoldable pub delete_key : Table D E → String → Table D E × Option (Item D E)
  unfolding delete_found
  delete_key table key = delete_found table key (get table key)

  unfoldable pub expire_all : Table D E → List (Item D E)
  unfolding expire
  expire_all [] = []
  expire_all ((_, item) ∷ rest) = expire item ∷ expire_all rest

  -- CacheTable.Clear: the table, and the items that were in it
  unfoldable pub clear : Table D E → Table D E × List (Item D E)
  unfolding expire_all
  clear table = (sweep (λ _ _. true) table table, expire_all table)

  unfoldable pub fetch_found :
      Instant
      → Table D E
      → String
      → (Item D E → Item D E × Answer D E)
      → Option (Item D E)
      → Table D E × Answer D E
  fetch_found now table key call none = (table, not_found key)
  fetch_found now table key call (some item) = (set table key (call item).0, (call item).1)

  -- CacheTable.Fetch; the item is shared with the table, so its change is stored
  unfoldable pub fetch_key :
      Instant → Table D E → String → Option (Loader D E) → Table D E × Answer D E
  unfolding fetch_found
  fetch_key now table key f = fetch_found now table key (λ item. fetch now item f) (get table key)

  -- CacheTable.Value
  unfoldable pub value_of : Instant → Table D E → String → Table D E × Answer D E
  unfolding fetch_found
  value_of now table key = fetch_found now table key (λ item. item_value now item) (get table key)
