-- ===== src/Worktrees/Repair/Unregister.antt =====
-- `repairUnregister`: the rows whose paths git does not list are marked deleted.
use treeman.Prelude.{
  ℕ, Bool, true, false, ◌&&◌, ◌||◌, not, [], ◌∷◌, ◌++◌, Option, none, some, ◌==◌, ==_iff,
  if◌then◌else◌, All, ◌≡◌, refl, sym, ap, subst, ◌∙◌, arith, Bool-cases, Option-cases, inl, inr,
}
use treeman.Prelude.Text.{Bytes}
use treeman.Prelude.Map.{lookup, nat_key, bytes_key}
use treeman.Worktrees.{Row, Table, consistent, write, update}
use treeman.Worktrees.Table.{Ids, Ids-insert, update_found, lookup-update-none, lookup-update}
use treeman.Worktrees.Consistent.{Stays, main_clash, update-accepted}
use treeman.Worktrees.Repair.{RepairResult, Progress, retired, unregistered, repair_unregister}

abbrev pub map_row : (Row → Row) → Option Row → Option Row
map_row f none = none
map_row f (some r) = some (f r)

-- The loop marks the row of an id.
unfoldable pub gone : (Bytes → Bool) → ℕ → Table → Bool
gone git j [] = false
gone git j ((i, r) ∷ rows) = j == i && not (git r.path || r.is_main) || gone git j rows

-- What the loop leaves.
pub record Cleared (git : Bytes → Bool) (rows t u : Table) : Type 0 where
  pub ids : Ids u
  pub accepted : consistent u ≡ true
  pub each :
      (j : ℕ) → lookup j u ≡ (if gone git j rows then map_row retired (lookup j t) else lookup j t)

retired-Stays : (r : Row) (t : Table) → Stays r (retired r) t
retired-Stays r t = record { path = refl; repo = refl; main = mains t }
  where
    one : (x : Row) → main_clash (retired r) x ≡ true → main_clash r x ≡ true
    one x e = ground arith

    mains : (u : Table) → All (λ x. main_clash (retired r) x.1 ≡ true → main_clash r x.1 ≡ true) u
    mains [] = tt
    mains ((i, x) ∷ u) = (one x, mains u)

-- A row is marked.
retire :
    (i : ℕ) (t : Table)
    → Ids t
    → consistent t ≡ true
    → (write (update i retired t) ≡ some (update i retired t))
      × Ids (update i retired t)
      × (consistent (update i retired t) ≡ true)
      × ((j : ℕ)
          → lookup j (update i retired t)
            ≡ (if j == i then map_row retired (lookup j t) else lookup j t))
unfolding write update
retire i t k c = elim (Option-cases (lookup i t)) [
  | inl e ↦
      (let u = same e in
        (rw u (rw c refl), subst Ids (sym u) k, ap consistent u ∙ c, λ j. absent e j))
  | inr (r, e) ↦
      (let (w, a) = update-accepted r retired i t e (retired-Stays r t) c in
        (
          w,
          subst Ids (sym (update_found r retired i t e)) (Ids-insert i (retired r) t k),
          a,
          λ j. present r e j,
        ))
]
  where
    same : lookup i t ≡ none → update i retired t ≡ t
    same e = rw (e, update, lookup) refl

    absent :
        lookup i t ≡ none
        → (j : ℕ)
        → lookup j (update i retired t)
          ≡ (if j == i then map_row retired (lookup j t) else lookup j t)
    absent e j = lookup-update-none i j retired t e ∙ elim (Bool-cases (j == i)) [
      | inl y ↦
          (let n : lookup j t ≡ none = ap (λ m. lookup m t) ((==_iff j i).0 y) ∙ e in
            rw y (n ∙ sym (ap (map_row retired) n)))
      | inr y ↦ rw y refl
    ]

    present :
        (r : Row)
        → lookup i t ≡ some r
        → (j : ℕ)
        → lookup j (update i retired t)
          ≡ (if j == i then map_row retired (lookup j t) else lookup j t)
    present r e j = lookup-update i j retired r t e ∙ elim (Bool-cases (j == i)) [
      | inl y ↦
          (let m : lookup j t ≡ some r = ap (λ m. lookup m t) ((==_iff j i).0 y) ∙ e in
            rw y (sym (ap (map_row retired) m)))
      | inr y ↦ rw y refl
    ]

twice :
    (b c : Bool) (o : Option Row)
    → (if c
        then map_row retired (if b then map_row retired o else o)
        else (if b then map_row retired o else o))
      ≡ (if b || c then map_row retired o else o)
twice true true none = refl
twice true true (some r) = refl
twice true false o = refl
twice false c o = refl

-- The loop makes no error.
pub repair_unregister-Cleared :
    (git : Bytes → Bool) (rows t : Table) (out : RepairResult)
    → Ids t
    → consistent t ≡ true
    → (let x = repair_unregister git rows (t, out) in
        (x.1.errors ≡ out.errors) × Cleared git rows t x.0)
unfolding repair_unregister gone
repair_unregister-Cleared git [] t out k c =
    (refl, record { ids = k; accepted = c; each = λ j. refl })
repair_unregister-Cleared git ((i, r) ∷ rows) t out k c =
    elim (Bool-cases (git r.path || r.is_main)) [
      | inl e ↦
          (let (a, l) = repair_unregister-Cleared git rows t out k c in
            subst Done (sym (ap (λ b. if b then (t, out) else taken) e)) (
              a,
              record {
                ids = l.ids;
                accepted = l.accepted;
                each = λ j.
                    l.each j
                    ∙ ap (λ b. if b then map_row retired (lookup j t) else lookup j t) (kept j e);
              },
            ))
      | inr e ↦
          (let (w, m, d, f) = retire i t k c in
            let (a, l) =
              repair_unregister-Cleared git rows _
                (record out { unregistered = out.unregistered ++ r.path ∷ [] }) m d in
            subst Done
              (sym (
                ap (λ b. if b then (t, out) else taken) e
                ∙ ap (λ o. unregistered r.path o (t, out)) w))
              (
                a,
                record {
                  ids = l.ids;
                  accepted = l.accepted;
                  each = λ j.
                      l.each j
                      ∙ ap (λ o. if gone git j rows then map_row retired o else o) (f j)
                      ∙ twice (j == i) (gone git j rows) (lookup j t)
                      ∙ ap (λ b. if b then map_row retired (lookup j t) else lookup j t)
                          (marked j e);
                },
              ))
    ]
  where
    taken : Progress
    taken = unregistered r.path (write (update i retired t)) (t, out)

    Done : Progress → Type 0
    Done y =
        let x = repair_unregister git rows y in
        (x.1.errors ≡ out.errors) × Cleared git ((i, r) ∷ rows) t x.0

    kept :
        (j : ℕ)
        → (git r.path || r.is_main) ≡ true
        → gone git j rows ≡ (j == i && not (git r.path || r.is_main) || gone git j rows)
    kept j e = ground (arith, e)

    marked :
        (j : ℕ)
        → (git r.path || r.is_main) ≡ false
        → (j == i || gone git j rows) ≡ (j == i && not (git r.path || r.is_main) || gone git j rows)
    marked j e = ground (arith, e)
