-- ===== src/Worktrees/Repair.antt =====
-- internal/wtreg/wtreg.go: the table of worktrees is reconciled with the worktrees that git lists.
-- The paths that git lists, whether the root is a directory and the branch of a checkout are
-- parameters. The text of an error is the path that it is about; the map of the rows by path is
-- their list, since a path has one row.
pub mod Register
pub mod Registering
pub mod Unregister
pub mod Kept
pub mod Reconciled
pub mod Again
use treeman.Prelude.{
  ℕ, zero, suc, Bool, true, false, ◌&&◌, ◌||◌, not, List, [], ◌∷◌, ◌++◌, Option, none, some, ◌==◌,
  if◌then◌else◌,
}
use treeman.Prelude.Text.{Bytes, bytes_eq, member}
use treeman.Slug.{Host, for_path}
use treeman.Worktrees.{Row, Table, live, write, update, given, insert_row, oldest}
use treeman.Worktrees.Retry.{rows_where}

-- `RepairResult`.
pub record RepairResult : Type 0 where
  pub registered : List Bytes
  pub unregistered : List Bytes
  pub errors : List Bytes

-- `loadRepairRows`.
unfoldable pub load_repair_rows : ℕ → Table → Table
unfolding rows_where
load_repair_rows repo t = rows_where (λ r. r.repo_id == repo && live r) t

unfoldable pub has_path : Bytes → Table → Bool
has_path p [] = false
has_path p ((i, r) ∷ t) = bytes_eq p r.path || has_path p t

-- A table in the transaction, and the result so far.
abbrev pub Progress : Type 0
Progress = Table × RepairResult

abbrev pub failed : Bytes → Progress → Progress
failed p (t, out) = (t, record out { errors = out.errors ++ p ∷ [] })

module _ (host : Host) (detect_branch : Bytes → Bytes) (now : ℕ) where
  abbrev pub slug_of : Bytes → Bytes
  slug_of p = (for_path host p (detect_branch p)).value

  abbrev pub revived : Bytes → Row → Row
  revived p r = record r {
    slug = slug_of p;
    branch = given (detect_branch p);
    deleted = false;
    last_visited = some now;
  }

  abbrev pub found_row : ℕ → Bytes → Row
  found_row repo p = record {
    repo_id = repo;
    path = p;
    slug = slug_of p;
    branch = given (detect_branch p);
    admin_dir = none;
    deleted = false;
    is_main = false;
    last_visited = some now;
    teardown_error = none;
  }

  abbrev pub registered : Bytes → Option Table → Progress → Progress
  registered p none x = failed p x
  registered p (some t) (u, out) = (t, record out { registered = out.registered ++ p ∷ [] })

  abbrev pub without_id : Option (ℕ × Table) → Option Table
  without_id none = none
  without_id (some (i, t)) = some t

  -- The UPDATE or INSERT for a path.
  unfoldable pub revive_or_insert : ℕ → Bytes → Table → Option Table
  unfolding oldest write update insert_row
  revive_or_insert repo p t = elim (oldest (λ r. bytes_eq p r.path) t) [
    | some x ↦ write (update x.0 (revived p) t)
    | none ↦ without_id (insert_row (found_row repo p) t)
  ]

  -- `repairRegister`; `rows` are those of `loadRepairRows`.
  unfoldable pub repair_register : ℕ → Bytes → Table → List Bytes → Progress → Progress
  unfolding has_path revive_or_insert
  repair_register repo root rows [] x = x
  repair_register repo root rows (p ∷ ps) x = repair_register repo root rows ps (
      if has_path p rows || bytes_eq p root
      then x
      else registered p (revive_or_insert repo p x.0) x)

abbrev pub retired : Row → Row
retired r = record r { deleted = true }

abbrev pub unregistered : Bytes → Option Table → Progress → Progress
unregistered p none x = failed p x
unregistered p (some t) (u, out) = (t, record out { unregistered = out.unregistered ++ p ∷ [] })

-- `repairUnregister`; `git` tests the set of paths that `repairRegister` has left.
unfoldable pub repair_unregister : (Bytes → Bool) → Table → Progress → Progress
unfolding write update
repair_unregister git [] x = x
repair_unregister git ((i, r) ∷ rows) x =
    repair_unregister git rows
      (if git r.path || r.is_main then x else unregistered r.path (write (update i retired x.0)) x)

abbrev pub no_result : RepairResult
no_result = record { registered = []; unregistered = []; errors = [] }

-- The set `gitSet`.
unfoldable pub git_set : Bool → Bytes → List Bytes → Bytes → Bool
unfolding member
git_set root_exists root ps p = root_exists && bytes_eq p root || member p ps

-- COMMIT, or ROLLBACK to the table before.
abbrev pub commit : List Bytes → Table → Progress → Progress
commit [] t x = x
commit (e ∷ es) t (u, out) = (t, out)

-- `Repair`, once git has listed the paths `ps` and the repository has an id.
unfoldable pub repair :
    Host → (Bytes → Bytes) → ℕ → Bool → ℕ → Bytes → List Bytes → Table → Progress
unfolding load_repair_rows repair_register repair_unregister git_set
repair host detect_branch now root_exists repo root ps t =
    let rows = load_repair_rows repo t in
    let x =
      repair_unregister (git_set root_exists root ps) rows
        (repair_register host detect_branch now repo root rows ps (t, no_result)) in
    commit x.1.errors t x
