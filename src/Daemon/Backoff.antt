-- ===== src/Daemon/Backoff.antt =====
-- internal/daemon/state.go and internal/daemon/autofetch.go: what the state keeps of
-- the fetches of a repository. Each method holds a mutex and is a step; `SyncRepo` computes the delay
-- in one and records the failure in another. Times are seconds, and `none` is the zero time.
pub mod Tracks
pub mod Tests
use treeman.Prelude.{
  ℕ, suc, ◌+◌, ◌-◌, min, Bool, true, false, not, ◌||◌, List, [], ◌∷◌, Option, none, some, ◌==◌,
  if◌then◌else◌, length, get_elem?,
}
use treeman.Prelude.Text.{Bytes, bytes_eq}
use treeman.Prelude.Map.{lookup, insert, delete, bytes_key}

abbrev pub or_zero : Option ℕ → ℕ
or_zero none = 0
or_zero (some n) = n

-- `syncBackoffSchedule`.
abbrev pub schedule : List ℕ
schedule = 60 ∷ 120 ∷ 300 ∷ 900 ∷ 1800 ∷ 3600 ∷ []

unfoldable pub backoff_for : ℕ → ℕ
backoff_for failures =
    if failures == 0
    then 0
    else or_zero (get_elem? schedule (min (failures - 1) (length schedule - 1)))

-- The maps `syncBackoff`, `syncFailCount`, `syncLastFetch` and `syncRefsDigest` of `State`.
pub record Sync : Type 0 where
  pub backoff : List (Bytes × ℕ)
  pub fail_count : List (Bytes × ℕ)
  pub last_fetch : List (Bytes × ℕ)
  pub refs_digest : List (Bytes × Bytes)

abbrev pub new_sync : Sync
new_sync = record { backoff = []; fail_count = []; last_fetch = []; refs_digest = [] }

unfoldable pub sync_backoff_until : Bytes → Sync → Option ℕ
unfolding lookup
sync_backoff_until repo s = lookup repo s.backoff

unfoldable pub sync_fail_count : Bytes → Sync → ℕ
unfolding lookup
sync_fail_count repo s = or_zero (lookup repo s.fail_count)

unfoldable pub sync_last_fetch : Bytes → Sync → Option ℕ
unfolding lookup
sync_last_fetch repo s = lookup repo s.last_fetch

unfoldable pub record_sync_failure : Bytes → ℕ → ℕ → Sync → ℕ × Sync
unfolding sync_fail_count insert
record_sync_failure repo delay now s =
    let n = suc (sync_fail_count repo s) in
    (
      n,
      record s {
        fail_count = insert repo n s.fail_count;
        backoff = insert repo (now + delay) s.backoff;
      },
    )

unfoldable pub record_sync_success : Bytes → ℕ → Sync → Sync
unfolding delete insert
record_sync_success repo now s = record s {
  backoff = delete repo s.backoff;
  fail_count = delete repo s.fail_count;
  last_fetch = insert repo now s.last_fetch;
}

abbrev pub differs_from : Bytes → Option Bytes → Bool
differs_from digest none = true
differs_from digest (some prev) = not (bytes_eq prev digest)

-- `RefsDigestChanged`.
unfoldable pub refs_digest_changed : Bytes → Bytes → Sync → Bool × Sync
unfolding lookup insert
refs_digest_changed repo digest s = (
  differs_from digest (lookup repo s.refs_digest),
  record s { refs_digest = insert repo digest s.refs_digest },
)

-- The outcome of a fetch, as `SyncRepo` records it: the repository, the time, and for a failure the
-- delay, which was computed from a count that may be outdated.
pub data Outcome : Type 0 where
  succeeded : Bytes → ℕ → Outcome
  failed : Bytes → ℕ → ℕ → Outcome

abbrev pub record_outcome : Outcome → Sync → Sync
unfolding record_sync_success record_sync_failure
record_outcome (succeeded repo now) s = record_sync_success repo now s
record_outcome (failed repo delay now) s = (record_sync_failure repo delay now s).1

-- The outcomes are listed from the latest on.
unfoldable pub record_outcomes : List Outcome → Sync
unfolding record_outcome
record_outcomes [] = new_sync
record_outcomes (o ∷ os) = record_outcome o (record_outcomes os)
