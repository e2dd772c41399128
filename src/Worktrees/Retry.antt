-- ===== src/Worktrees/Retry.antt =====
-- internal/store/teardown_pending.go, internal/daemon/teardown_retry.go and the teardown of the
-- databases in internal/prepare/prepare.go: a deleted worktree whose databases could not be dropped
-- is retried. What `teardownOne` answers for a database and a slug (its error as it is wrapped),
-- which paths are being torn down elsewhere, and when the context is done are parameters.
use treeman.Prelude.{
  ℕ, zero, suc, Bool, true, false, ◌&&◌, ◌||◌, not, List, [], ◌∷◌, ◌++◌, Option, none, some, ◌==◌,
  if◌then◌else◌,
}
use treeman.Prelude.Text.{Bytes, bytes_eq}
use treeman.Worktrees.{Row, Table, live, set_teardown_error, clear_teardown_error}

abbrev pub is_owed : Option Bytes → Bool
is_owed none = false
is_owed (some e) = true

-- `EXISTS … l.slug = w.slug AND l.repo_id = w.repo_id AND l.deleted_at IS NULL`.
unfoldable pub slug_taken : ℕ → Bytes → Table → Bool
slug_taken repo slug [] = false
slug_taken repo slug ((i, l) ∷ t) =
    bytes_eq l.slug slug && l.repo_id == repo && live l || slug_taken repo slug t

-- The condition of `ListPendingTeardowns`.
unfoldable pub pending : ℕ → Table → Row → Bool
unfolding slug_taken
pending repo t r =
    r.repo_id == repo
    && is_owed r.teardown_error
    && r.deleted
    && not (slug_taken r.repo_id r.slug t)

unfoldable pub rows_where : (Row → Bool) → Table → Table
rows_where p [] = []
rows_where p ((i, r) ∷ t) = if p r then (i, r) ∷ rows_where p t else rows_where p t

-- `ListPendingTeardowns`.
unfoldable pub list_pending_teardowns : ℕ → Table → Table
unfolding rows_where pending
list_pending_teardowns repo t = rows_where (pending repo t) t

module _ {D : Type 0} (teardown_one : D → Bytes → Option Bytes) where
  abbrev join_error : Option Bytes → Option Bytes → Option Bytes
  join_error none e = e
  join_error (some d) none = some d
  join_error (some d) (some e) = some (d ++ b'\n' ∷ e)

  -- `errors.Join` of what the databases answer.
  unfoldable pub teardown_errors : List D → Bytes → Option Bytes
  teardown_errors [] slug = none
  teardown_errors (d ∷ ds) slug = join_error (teardown_one d slug) (teardown_errors ds slug)

  -- `recordTeardownOutcome`, less the markers of the active branches.
  unfoldable pub record_teardown_outcome : ℕ → Option Bytes → Table → Table
  unfolding set_teardown_error clear_teardown_error
  record_teardown_outcome i none t = clear_teardown_error i t
  record_teardown_outcome i (some e) t = set_teardown_error i e t

  -- `TeardownDatabases`; an id below 1 is 0.
  unfoldable pub teardown_databases : List D → Bytes → ℕ → Table → Table
  unfolding teardown_errors record_teardown_outcome
  teardown_databases ds slug zero t = t
  teardown_databases ds slug (suc i) t = record_teardown_outcome (suc i) (teardown_errors ds slug) t

  module _ (busy : Bytes → Bool) (done : ℕ → Bool) (ds : List D) where
    -- `retryTeardown`: the table, and the slugs whose databases were torn down, the last one first.
    unfoldable pub retry_teardown : ℕ → Row → Table × List Bytes → Table × List Bytes
    unfolding teardown_databases
    retry_teardown i p (t, dropped) =
        if busy p.path then (t, dropped) else (teardown_databases ds p.slug i t, p.slug ∷ dropped)

    unfoldable pub retry_all : Table → Table × List Bytes → Table × List Bytes
    unfolding retry_teardown
    retry_all [] x = x
    retry_all ((i, p) ∷ ps) x =
        let rest = retry_all ps (retry_teardown i p x) in if done i then x else rest

    abbrev pub no_databases : List D → Bool
    no_databases [] = true
    no_databases (d ∷ ds) = false

    -- `retryPendingTeardowns`.
    unfoldable pub retry_pending_teardowns : ℕ → Table → Table × List Bytes
    unfolding retry_all list_pending_teardowns
    retry_pending_teardowns repo t =
        if no_databases ds then (t, []) else retry_all (list_pending_teardowns repo t) (t, [])
