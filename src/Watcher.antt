-- ===== src/Watcher.antt =====
-- internal/watcher/watcher.go: the events of a repository's files, matched against the inputs of its
-- databases and dispatched once a burst is over. `rel` is `filepath.Rel` to the repository (`none` is
-- its error) and `path_match` is `doublestar.PathMatch`; what a walk below a new directory finds
-- comes with the event. The kernel's subscriptions are not modelled.
pub mod Classify
pub mod Sorting
pub mod Queued
pub mod Burst
pub mod Tests
use treeman.Prelude.{
  ℕ, ◌*◌, ◌/◌, ◌^◌, ◌-◌, Bool, true, false, ◌&&◌, ◌||◌, not, List, [], ◌∷◌, ◌++◌, Option, none,
  some, ◌==◌, if◌then◌else◌, min,
}
use treeman.Prelude.Text.{Bytes, before}
use treeman.Prelude.Map.{lookup, insert, bytes_key}

pub record Match : Type 0 where
  pub db_index : ℕ
  pub label : Bytes

pub record Event : Type 0 where
  pub repo_path : Bytes
  pub path : Bytes
  pub matches : List Match

-- `config.WatcherPath`.
pub record WatcherPath : Type 0 where
  pub glob : Bytes
  pub label : Bytes
  pub db_index : ℕ

-- The window of `New` in nanoseconds.
abbrev pub max_debounce_ms : ℕ
max_debounce_ms = (2 ^ 63 - 1) / 1000000

abbrev pub or_default : ℕ → ℕ
or_default d = if d == 0 then 500 * 1000000 else d

unfoldable pub debounce : ℕ → ℕ
debounce ms = or_default (min ms max_debounce_ms * 1000000)

unfoldable pub has_match : ℕ → List Match → Bool
has_match i [] = false
has_match i (m ∷ ms) = i == m.db_index || has_match i ms

unfoldable pub insert_event : Event → List Event → List Event
insert_event e [] = e ∷ []
insert_event e (x ∷ xs) = if before x.path e.path then x ∷ insert_event e xs else e ∷ x ∷ xs

-- `slices.SortedFunc(maps.Values(…))`.
unfoldable pub sorted_events : List (Bytes × Event) → List Event
unfolding insert_event
sorted_events [] = []
sorted_events ((p, e) ∷ m) = insert_event e (sorted_events m)

-- What the loop of `Start` reads: an event of a path, with the files below it if it is a directory
-- that was created; an error; or the timer.
pub data Input : Type 0 where
  event : Bytes → List Bytes → Input
  failure : Input
  tick : Input

-- The state of the loop.
pub record Loop : Type 0 where
  pub armed : Bool
  pub pending : List (Bytes × Event)

abbrev pub idle : Loop
idle = record { armed = false; pending = [] }

module _ (rel : Bytes → Option Bytes) (path_match : Bytes → Bytes → Bool) (repo : Bytes)
    (paths : List WatcherPath) where
  unfoldable pub match_all : Bytes → List WatcherPath → List Match → List Match
  unfolding has_match
  match_all r [] ms = ms
  match_all r (p ∷ ps) ms = match_all r ps (
      if has_match p.db_index ms
      then ms
      else if path_match p.glob r
      then ms ++ record { db_index = p.db_index; label = p.label } ∷ []
      else ms)

  abbrev pub matches_of : Option Bytes → List Match
  matches_of none = []
  matches_of (some r) = match_all r paths []

  unfoldable pub classify : Bytes → List Match
  unfolding match_all
  classify path = matches_of (rel path)

  abbrev pub is_empty : List Match → Bool
  is_empty [] = true
  is_empty (m ∷ ms) = false

  abbrev pub event_at : Bytes → Event
  event_at path = record { repo_path = repo; path = path; matches = classify path }

  -- `enqueue`: whether the path is queued, and what is pending.
  unfoldable pub enqueue : Bytes → List (Bytes × Event) → Bool × List (Bytes × Event)
  unfolding classify insert
  enqueue path pending =
      if is_empty (classify path)
      then (false, pending)
      else (true, insert path (event_at path) pending)

  -- The callback of `subscribe`.
  unfoldable pub enqueue_all :
      List Bytes → Bool × List (Bytes × Event) → Bool × List (Bytes × Event)
  unfolding enqueue
  enqueue_all [] x = x
  enqueue_all (f ∷ fs) (queued, pending) =
      let (q, p) = enqueue f pending in enqueue_all fs (q || queued, p)

  -- `flush`: the events to dispatch. The dispatcher's error is logged.
  unfoldable pub flush : List (Bytes × Event) → List Event
  unfolding sorted_events
  flush pending = sorted_events pending

  -- A turn of the loop of `Start`, with the events that it dispatches.
  unfoldable pub turn : Input → Loop → Loop × List Event
  unfolding enqueue enqueue_all flush
  turn (event path files) l =
      let (queued, pending) = enqueue_all files (enqueue path l.pending) in
      (record { armed = queued || l.armed; pending = pending }, [])
  turn failure l = (l, [])
  turn tick l = (idle, flush l.pending)

  unfoldable pub run : List Input → Loop → Loop × List Event
  unfolding turn
  run [] l = (l, [])
  run (i ∷ is) l = let (m, es) = turn i l in let (n, fs) = run is m in (n, es ++ fs)
