-- ===== src/Worktrees/Pending.antt =====
-- The retry of teardowns touches what is owed and nothing that a live worktree owns.
use treeman.Prelude.{
  ℕ, Bool, true, false, ◌&&◌, ◌||◌, [], ◌∷◌, Option, none, some, ◌==◌, ==_iff, if◌then◌else◌, All,
  ◌≡◌, refl, sym, ap, subst, ◌∙◌, arith, Bool-cases, inl, inr, or_both, or_right,
}
use treeman.Prelude.Text.{bytes_eq}
use treeman.Prelude.Map.{lookup, nat_key, beq_refl, bytes_key}
use treeman.Worktrees.{Row, Table, live}
use treeman.Worktrees.Table.{Ids, first-row, later-row, no_row}
use treeman.Worktrees.Retry.{slug_taken, pending, rows_where}

-- A live row takes its slug.
pub live-takes :
    (i : ℕ) (r : Row) (t : Table)
    → lookup i t ≡ some r
    → r.deleted ≡ false
    → slug_taken r.repo_id r.slug t ≡ true
unfolding slug_taken lookup
live-takes i r [] h d = absurd (no_row i r h)
live-takes i r ((j, x) ∷ t) h d = elim (Bool-cases (i == j)) [
  | inl e ↦
      subst
        (λ y.
          (bytes_eq y.slug r.slug && y.repo_id == r.repo_id && live y
            || slug_taken r.repo_id r.slug t)
          ≡ true)
        (sym (first-row i j x r t e h)) (ground (arith, d, beq_refl r.slug, beq_refl r.repo_id))
  | inr e ↦ or_right _ (live-takes i r t (later-row i j x r t e h) d)
]

pub pending-free :
    (repo : ℕ) (t : Table) (r : Row)
    → pending repo t r ≡ true
    → (slug_taken r.repo_id r.slug t ≡ false) × (r.repo_id ≡ repo)
unfolding pending
pending-free repo t r h = (ground arith, ground (arith, ==_iff r.repo_id repo))

pub rows_where-All : (p : Row → Bool) (t : Table) → All (λ x. p x.1 ≡ true) (rows_where p t)
unfolding rows_where
rows_where-All p [] = tt
rows_where-All p ((i, r) ∷ t) = elim (Bool-cases (p r)) [
  | inl e ↦ rw e (e, rows_where-All p t)
  | inr e ↦ rw e (rows_where-All p t)
]

unfoldable pub listed : ℕ → Table → Bool
listed j [] = false
listed j ((i, p) ∷ ps) = j == i || listed j ps

absent :
    (p : Row → Bool) (j : ℕ) (t : Table)
    → lookup j t ≡ none
    → (listed j (rows_where p t) ≡ false) × All (λ x. (j == x.0) ≡ false) (rows_where p t)
unfolding rows_where lookup listed
absent p j [] h = (refl, tt)
absent p j ((i, x) ∷ t) h =
    let n : (j == i) ≡ false = ground (arith, h) in
    let (a, b) = absent p j t (rw_false (some x) n h) in
    elim (Bool-cases (p x)) [ inl e ↦ rw e (or_both n a, (n, b)) | inr e ↦ rw e (a, b) ]
  where
    rw_false :
        {b : Bool} {o : Option Row} (q : Option Row)
        → b ≡ false
        → (if b then q else o) ≡ none
        → o ≡ none
    rw_false {b} q n h = ground (arith, n, h)

pub listed-rows_where :
    (p : Row → Bool) (j : ℕ) (r : Row) (t : Table)
    → Ids t
    → lookup j t ≡ some r
    → (listed j (rows_where p t) ≡ p r) × All (λ x. (j == x.0) ≡ true → x.1 ≡ r) (rows_where p t)
unfolding rows_where listed
listed-rows_where p j r [] k h = absurd (no_row j r h)
listed-rows_where p j r ((i, x) ∷ t) (f, k) h = elim (Bool-cases (j == i)) [
  | inl e ↦
      (let q = first-row j i x r t e h in
        let (a, b) = absent p j t (ap (λ n. lookup n t) ((==_iff j i).0 e) ∙ f) in
        elim (Bool-cases (p x)) [
          | inl y ↦ rw y (rw e (sym y ∙ ap p q), (λ _. q, vacuous _ b))
          | inr y ↦ rw y (a ∙ sym y ∙ ap p q, vacuous _ b)
        ])
  | inr e ↦
      (let (a, b) = listed-rows_where p j r t k (later-row j i x r t e h) in
        elim (Bool-cases (p x)) [
          | inl y ↦ rw y (rw e a, (λ m. absurd (differ (sym m ∙ e)), b))
          | inr y ↦ rw y (a, b)
        ])
]
  where
    differ : true ≡ false → ⊥
    differ e = ground arith

    vacuous :
        (u : Table) → All (λ x. (j == x.0) ≡ false) u → All (λ x. (j == x.0) ≡ true → x.1 ≡ r) u
    vacuous [] _ = tt
    vacuous (x ∷ u) (n, h) = (λ m. absurd (differ (sym m ∙ n)), vacuous u h)
