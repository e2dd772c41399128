-- ===== src/Worktrees.antt =====
-- internal/store/store.go and internal/store/teardown_pending.go: the table of worktrees. A
-- statement sees and leaves a table, the rows by id from the oldest on; a write that breaks a
-- UNIQUE index of the schema is refused. `fold` is the collation NOCASE: two paths are the same
-- when their images are. A stamp of time is a number, and `deleted_at` only whether it is set.
pub mod Table
mod Consistent
pub mod Ensure
pub mod Main
pub mod Retry
pub mod Pending
pub mod Sweep
pub mod Repair
pub mod Tests
use treeman.Prelude.{
  ℕ, zero, suc, ◌+◌, max, Bool, true, false, ◌&&◌, ◌||◌, not, List, [], ◌∷◌, ◌++◌, Option, none,
  some, ◌==◌, ltb, if◌then◌else◌,
}
use treeman.Prelude.Text.{Bytes, bytes_eq}
use treeman.Prelude.Map.{lookup, insert, nat_key}

-- A row of `worktrees`, less its id and `created_at`.
pub record Row : Type 0 where
  pub repo_id : ℕ
  pub path : Bytes
  pub slug : Bytes
  pub branch : Option Bytes
  pub admin_dir : Option Bytes
  pub deleted : Bool
  pub is_main : Bool
  pub last_visited : Option ℕ
  pub teardown_error : Option Bytes

abbrev pub Table : Type 0
Table = List (ℕ × Row)

abbrev pub live : Row → Bool
live r = not r.deleted

abbrev pub live_main : Row → Bool
live_main r = r.is_main && live r

-- `path TEXT UNIQUE` and `idx_worktrees_one_main_per_repo`.
abbrev pub clash : Row → Row → Bool
clash r s = bytes_eq r.path s.path || live_main r && live_main s && r.repo_id == s.repo_id

unfoldable pub conflicts : Row → Table → Bool
conflicts r [] = false
conflicts r ((i, s) ∷ t) = clash r s || conflicts r t

unfoldable pub consistent : Table → Bool
unfolding conflicts
consistent [] = true
consistent ((i, r) ∷ t) = not (conflicts r t) && consistent t

-- A write: `none` is a UNIQUE conflict.
unfoldable pub write : Table → Option Table
unfolding consistent
write t = if consistent t then some t else none

-- `UPDATE worktrees SET … WHERE id = ?`; an id without a row changes nothing.
unfoldable pub update : ℕ → (Row → Row) → Table → Table
unfolding lookup insert
update i f t = elim (lookup i t) [ none ↦ t | some r ↦ insert i (f r) t ]

unfoldable pub next_id : Table → ℕ
next_id [] = 1
next_id ((i, r) ∷ t) = max (suc i) (next_id t)

-- The oldest row that a condition accepts, and the newest (`ORDER BY id DESC LIMIT 1`).
unfoldable pub oldest : (Row → Bool) → Table → Option (ℕ × Row)
oldest p [] = none
oldest p ((i, r) ∷ t) = if p r then some (i, r) else oldest p t

unfoldable pub newest : (Row → Bool) → Table → Option (ℕ × Row)
newest p [] = none
newest p ((i, r) ∷ t) =
    let rest = newest p t in
    elim rest [ none ↦ if p r then some (i, r) else none | some x ↦ some x ]

-- "" is NULL.
abbrev pub given : Bytes → Option Bytes
given [] = none
given (c ∷ s) = some (c ∷ s)

-- NULL is "".
abbrev pub or_empty : Option Bytes → Bytes
or_empty none = []
or_empty (some s) = s

abbrev pub coalesce : Option Bytes → Option Bytes → Option Bytes
coalesce none b = b
coalesce (some a) b = some a

abbrev differs : Option Bytes → Option Bytes → Bool
differs none cur = false
differs (some s) cur = not (bytes_eq (or_empty cur) s)

abbrev pub needs_update : Bytes → Option Bytes → Option Bytes → Row → Bool
needs_update slug br ad r =
    not (bytes_eq r.slug slug) || r.deleted || differs br r.branch || differs ad r.admin_dir

abbrev pub refreshed : Bytes → Option Bytes → Option Bytes → Row → Row
refreshed slug br ad r = record r {
  slug = slug;
  branch = coalesce br r.branch;
  admin_dir = coalesce ad r.admin_dir;
  deleted = false;
  teardown_error = none;
}

abbrev pub with_id : ℕ → Option Table → Option (ℕ × Table)
with_id i none = none
with_id i (some t) = some (i, t)

-- The tables that the statements of `EnsureWorktreeWithAdmin` see: the first SELECT, the INSERT, the
-- SELECT after a lost race, and the SELECT and the UPDATE of `refresh`. Others may write in between.
pub record Stages : Type 0 where
  pub seen : Table
  pub inserting : Table
  pub won : Table
  pub reading : Table
  pub writing : Table

-- The closure `refresh` of `EnsureWorktreeWithAdmin`: its SELECT, and its UPDATE.
unfoldable pub refresh : Bytes → Option Bytes → Option Bytes → ℕ → Stages → Option (ℕ × Table)
unfolding write update lookup
refresh slug br ad i ts = elim (lookup i ts.reading) [
  | none ↦ none
  | some r ↦
      if needs_update slug br ad r
      then with_id i (write (update i (refreshed slug br ad) ts.writing))
      else some (i, ts.reading)
]

-- The values of an INSERT that names no other column.
abbrev pub new_row : ℕ → Bytes → Bytes → Option Bytes → Option Bytes → Bool → Row
new_row repo path slug br ad main = record {
  repo_id = repo;
  path = path;
  slug = slug;
  branch = br;
  admin_dir = ad;
  deleted = false;
  is_main = main;
  last_visited = none;
  teardown_error = none;
}

unfoldable pub insert_row : Row → Table → Option (ℕ × Table)
unfolding write next_id
insert_row r t = with_id (next_id t) (write (t ++ (next_id t, r) ∷ []))

abbrev pub enrolled : Bytes → Option Bytes → Row → Row
enrolled slug br r = record r {
  slug = slug;
  branch = coalesce br r.branch;
  deleted = false;
  is_main = true;
}

module _ (fold : Bytes → Bytes) where
  -- `path = ? COLLATE NOCASE`.
  abbrev pub at_path : Bytes → Row → Bool
  at_path path r = bytes_eq (fold path) (fold r.path)

  -- The INSERT of `EnsureWorktreeWithAdmin`; on a lost race it refreshes the winner's row.
  unfoldable pub insert_or_refresh : ℕ → Bytes → Bytes → Bytes → Bytes → Stages → Option (ℕ × Table)
  unfolding oldest refresh insert_row
  insert_or_refresh repo path slug branch admin ts =
      elim (insert_row (new_row repo path slug (given branch) (given admin) false) ts.inserting) [
        | some y ↦ some y
        | none ↦ elim (oldest (at_path path) ts.won) [
          | some x ↦ refresh slug (given branch) (given admin) x.0 ts
          | none ↦ none
        ]
      ]

  -- `EnsureWorktreeWithAdmin`.
  unfoldable pub ensure_with_admin : ℕ → Bytes → Bytes → Bytes → Bytes → Stages → Option (ℕ × Table)
  unfolding oldest refresh insert_or_refresh
  ensure_with_admin repo path slug branch admin ts = elim (oldest (at_path path) ts.seen) [
    | some x ↦ refresh slug (given branch) (given admin) x.0 ts
    | none ↦ insert_or_refresh repo path slug branch admin ts
  ]

  -- `EnsureWorktree`.
  unfoldable pub ensure : ℕ → Bytes → Bytes → Bytes → Stages → Option (ℕ × Table)
  unfolding ensure_with_admin
  ensure repo path slug branch ts = ensure_with_admin repo path slug branch [] ts

  -- `EnsureMainWorktree`.
  unfoldable pub ensure_main : ℕ → Bytes → Bytes → Bytes → Table → Option (ℕ × Table)
  unfolding oldest write update insert_row
  ensure_main repo path slug branch t = elim (oldest (at_path path) t) [
    | some x ↦ with_id x.0 (write (update x.0 (enrolled slug (given branch)) t))
    | none ↦ insert_row (new_row repo path slug (given branch) none true) t
  ]

  -- `LookupActiveWorktreeByPath`.
  unfoldable pub lookup_active_by_path : Bytes → Table → Option (ℕ × Row)
  unfolding newest
  lookup_active_by_path path t = newest (λ r. at_path path r && live r) t

  -- `LookupWorktreeByPath`.
  unfoldable pub lookup_by_path : Bytes → Table → Option (ℕ × Row)
  unfolding newest
  lookup_by_path path t = newest (at_path path) t

-- `LookupMainWorktree`.
unfoldable pub lookup_main : ℕ → Table → Option (ℕ × Row)
unfolding newest
lookup_main repo t = newest (λ r. r.repo_id == repo && live_main r) t

-- `MarkWorktreeDeleted`.
unfoldable pub mark_deleted : ℕ → Table → Table
unfolding update
mark_deleted i t = update i (λ r. record r { deleted = true }) t

-- `SetTeardownError` and `ClearTeardownError`.
unfoldable pub set_teardown_error : ℕ → Bytes → Table → Table
unfolding update
set_teardown_error i msg t = update i (λ r. record r { teardown_error = some msg }) t

unfoldable pub clear_teardown_error : ℕ → Table → Table
unfolding update
clear_teardown_error i t = update i (λ r. record r { teardown_error = none }) t
