-- ===== src/Daemon/InFlight.antt =====
-- internal/daemon/state.go: which worktrees are being finalized or torn down, and the re-prepares that
-- wait for a finalize. Each method holds `inFlightMu` throughout, so it is one step.
pub mod Order
pub mod Queue
pub mod HandBack
pub mod Tests
use treeman.Prelude.{
  ℕ, zero, suc, ◌+◌, ◌-◌, ℤ, pos, negsuc, int_eq, int_le, Bool, true, false, not, List, [], ◌∷◌,
  ◌++◌, map, Option, none, some, leb, ltb, if◌then◌else◌,
}
use treeman.Prelude.Text.{Bytes}
use treeman.Prelude.Map.{lookup, insert, delete, bytes_key, int_key}

-- `WatchRerun`; the index -1 stands for every database.
pub record WatchRerun : Type 0 where
  pub repo_path : Bytes
  pub db_index : ℤ
  pub env : List (Bytes × Bytes)
  pub run_id : Bytes

-- `HeadRerun`.
pub record HeadRerun : Type 0 where
  pub repo_path : Bytes
  pub env : List (Bytes × Bytes)
  pub run_id : Bytes

-- `inFlightFinalize`; `cancelled` tells that its cancel function was called.
pub record Entry : Type 0 where
  pub cancelled : Bool
  pub started_at : ℕ
  pub watch_reruns : List (ℤ × WatchRerun)
  pub head_rerun : Option HeadRerun

-- `QueuedReruns`.
pub record QueuedReruns : Type 0 where
  pub head : Option HeadRerun
  pub watch : List WatchRerun

-- The maps of `State` behind `inFlightMu`.
pub record InFlight : Type 0 where
  pub teardowns : List (Bytes × Unit {0})
  pub finalizes : List (Bytes × Entry)
  pub creates : List (Bytes × ℕ)

abbrev pub is_there {ℓ} : {A : Type ℓ} → Option A → Bool
is_there none = false
is_there (some a) = true

-- `MarkTeardownInFlight`.
pub mark_teardown : Bytes → InFlight → Bool × InFlight
unfolding lookup insert
mark_teardown p s =
    if is_there (lookup p s.teardowns)
    then (false, s)
    else (true, record s { teardowns = insert p tt s.teardowns })

-- `UnmarkTeardownInFlight`.
pub unmark_teardown : Bytes → InFlight → InFlight
unfolding delete
unmark_teardown p s = record s { teardowns = delete p s.teardowns }

-- `IsTeardownInFlight`.
pub is_teardown_in_flight : Bytes → InFlight → Bool
unfolding lookup
is_teardown_in_flight p s = is_there (lookup p s.teardowns)

abbrev fresh : ℕ → Entry
fresh now = record { cancelled = false; started_at = now; watch_reruns = []; head_rerun = none }

-- `MarkFinalizeInFlight`, at a time.
unfoldable pub mark_finalize : ℕ → Bytes → InFlight → Bool × InFlight
unfolding lookup insert
mark_finalize now p s =
    if is_there (lookup p s.finalizes)
    then (false, s)
    else (true, record s { finalizes = insert p (fresh now) s.finalizes })

abbrev pub every : ℤ
every = negsuc 0

-- The reruns of an entry with one more.
unfoldable pub add_watch : WatchRerun → List (ℤ × WatchRerun) → List (ℤ × WatchRerun)
unfolding lookup insert
add_watch r reruns =
    if is_there (lookup every reruns)
    then insert every (record r { db_index = every }) reruns
    else if int_eq r.db_index every
    then insert r.db_index r []
    else insert r.db_index r reruns

-- What `MarkFinalizeInFlightOrQueue` does to the entry that is there.
abbrev pub queue_watch : WatchRerun → Entry → Entry
unfolding add_watch
queue_watch r entry = record entry { watch_reruns = add_watch r entry.watch_reruns }

-- What `MarkFinalizeInFlightOrQueueHead` does to it.
abbrev pub queue_head : HeadRerun → Entry → Entry
queue_head r entry = record entry { head_rerun = some r }

abbrev pub queue_on : ℕ → Bytes → (Entry → Entry) → InFlight → Option Entry → Bool × InFlight
unfolding insert
queue_on now p queue s none = (true, record s { finalizes = insert p (fresh now) s.finalizes })
queue_on now p queue s (some entry) =
    (false, record s { finalizes = insert p (queue entry) s.finalizes })

-- `markFinalizeOrQueue`.
unfoldable pub mark_finalize_or_queue : ℕ → Bytes → (Entry → Entry) → InFlight → Bool × InFlight
unfolding lookup queue_on
mark_finalize_or_queue now p queue s = queue_on now p queue s (lookup p s.finalizes)

unfoldable pub insert_by_index : WatchRerun → List WatchRerun → List WatchRerun
insert_by_index r [] = r ∷ []
insert_by_index r (x ∷ xs) =
    if int_le r.db_index x.db_index then r ∷ x ∷ xs else x ∷ insert_by_index r xs

-- The reruns of a map, ordered by database index.
unfoldable pub sorted_reruns : List (ℤ × WatchRerun) → List WatchRerun
unfolding insert_by_index
sorted_reruns [] = []
sorted_reruns ((i, r) ∷ m) = insert_by_index r (sorted_reruns m)

abbrev pub handed_back : Option Entry → QueuedReruns
unfolding sorted_reruns
handed_back none = record { head = none; watch = [] }
handed_back (some entry) = record {
  head = entry.head_rerun;
  watch = if is_there entry.head_rerun then [] else sorted_reruns entry.watch_reruns;
}

-- `UnmarkFinalizeInFlight`.
unfoldable pub unmark_finalize : Bytes → InFlight → QueuedReruns × InFlight
unfolding lookup delete handed_back
unmark_finalize p s =
    (handed_back (lookup p s.finalizes), record s { finalizes = delete p s.finalizes })

-- `IsFinalizeInFlight`.
unfoldable pub is_finalize_in_flight : Bytes → InFlight → Bool
unfolding lookup
is_finalize_in_flight p s = is_there (lookup p s.finalizes)

abbrev pub cancel_on : Bytes → InFlight → Option Entry → Bool × InFlight
unfolding insert
cancel_on p s none = (false, s)
cancel_on p s (some entry) =
    (true, record s { finalizes = insert p (record entry { cancelled = true }) s.finalizes })

-- `CancelFinalize`.
unfoldable pub cancel_finalize : Bytes → InFlight → Bool × InFlight
unfolding lookup cancel_on
cancel_finalize p s = cancel_on p s (lookup p s.finalizes)

-- `SnapshotInFlightFinalizes`.
pub snapshot_finalizes : InFlight → List (Bytes × ℕ)
snapshot_finalizes s = map (λ (e : Bytes × Entry). (e.0, e.1.started_at)) s.finalizes

abbrev or_zero : Option ℕ → ℕ
or_zero none = 0
or_zero (some n) = n

-- `MarkCreateInFlight`, with the path cleaned.
pub mark_create : Bytes → InFlight → InFlight
unfolding lookup insert
mark_create p s = record s { creates = insert p (or_zero (lookup p s.creates) + 1) s.creates }

-- The function that `MarkCreateInFlight` returns.
pub unmark_create : Bytes → InFlight → InFlight
unfolding lookup insert delete
unmark_create p s =
    let n = or_zero (lookup p s.creates) in
    record s { creates = if leb n 1 then delete p s.creates else insert p (n - 1) s.creates }

-- `IsCreateInFlight`, with the path cleaned.
pub is_create_in_flight : Bytes → InFlight → Bool
unfolding lookup
is_create_in_flight p s = ltb 0 (or_zero (lookup p s.creates))
