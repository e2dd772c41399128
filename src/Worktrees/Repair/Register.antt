-- ===== src/Worktrees/Repair/Register.antt =====
-- `repairRegister`: every path that git lists gets a live row.
use treeman.Prelude.{
  ℕ, Bool, true, false, [], ◌∷◌, ◌++◌, none, some, ◌==◌, ==_iff, All, ◌≡◌, ◌⊎◌, refl, sym, ap,
  subst, ◌∙◌, arith, Bool-cases, Option-cases, inl, inr,
}
use treeman.Prelude.Text.{Bytes, bytes_eq, bytes_eq_iff}
use treeman.Prelude.Map.{lookup, nat_key, beq_refl, bytes_key}
use treeman.Slug.{Host}
use treeman.Worktrees.{Row, Table, consistent, update, oldest, insert_row, next_id}
use treeman.Worktrees.Table.{
  Ids, Ids-insert, Ids-insert_row, insert_row-fits, if_some, same_row, updated, lookup-update,
  update_found, oldest-lookup, insert_row-lookup, insert_row-consistent, lookup-next_id,
}
use treeman.Worktrees.Consistent.{Stays, main_clash, update-accepted, consistent-append, no_clash}
use treeman.Worktrees.Repair.{revived, found_row, without_id, revive_or_insert}

-- A row was there, at its path and with its repository, or is the repository's.
abbrev pub Owned : ℕ → Table → Table → Type 0
Owned repo t u =
    (j : ℕ) (r : Row)
    → lookup j u ≡ some r
    → ((s : Row) × (lookup j t ≡ some s) × (s.repo_id ≡ r.repo_id) × (s.path ≡ r.path))
      ⊎ (r.repo_id ≡ repo)

pub Owned-trans : (repo : ℕ) (t u v : Table) → Owned repo t u → Owned repo u v → Owned repo t v
Owned-trans repo t u v f g j r m = elim (g j r m) [
  | inl (s, n, e, q) ↦ elim (f j s n) [
    | inl (x, o, d, y) ↦ inl (x, o, d ∙ e, y ∙ q)
    | inr d ↦ inr (sym e ∙ d)
  ]
  | inr e ↦ inr e
]

-- What a write of the path leaves.
pub record Step (repo : ℕ) (p : Bytes) (t u : Table) : Type 0 where
  pub ids : Ids u
  pub accepted : consistent u ≡ true
  pub back :
      (j : ℕ) (r : Row)
      → lookup j u ≡ some r
      → (lookup j t ≡ some r) ⊎ ((r.path ≡ p) × (r.deleted ≡ false))
  pub forth :
      (j : ℕ) (r : Row)
      → lookup j t ≡ some r
      → (s : Row) × (lookup j u ≡ some s)
        × (s.path ≡ r.path)
        × (r.deleted ≡ false → s.deleted ≡ false)
  pub owner : Owned repo t u
  pub here : (j : ℕ) × (r : Row) × (lookup j u ≡ some r) × (r.path ≡ p) × (r.deleted ≡ false)

-- No main worktree that was switched off is at a path that is to be registered.
abbrev pub NoneRetired : (Bytes → Bool) → Table → Type 0
NoneRetired f t =
    (j : ℕ) (r : Row) → lookup j t ≡ some r → r.deleted ≡ true → r.is_main ≡ true → f r.path ≡ false

module _ (host : Host) (detect_branch : Bytes → Bytes) (now : ℕ) where
  revived-Stays :
      (p : Bytes) (r : Row) (t : Table)
      → (r.deleted ≡ true → r.is_main ≡ true → ⊥)
      → Stays r (revived host detect_branch now p r) t
  revived-Stays p r t h = record { path = refl; repo = refl; main = mains t }
    where
      one :
          (x : Row)
          → main_clash (revived host detect_branch now p r) x ≡ true
          → main_clash r x ≡ true
      one x e = elim (Bool-cases r.deleted) [
        | inl d ↦ absurd (h d (ground arith))
        | inr d ↦ ground arith
      ]

      mains :
          (u : Table)
          → All
              (λ x.
                main_clash (revived host detect_branch now p r) x.1 ≡ true
                → main_clash r x.1 ≡ true)
              u
      mains [] = tt
      mains ((i, x) ∷ u) = (one x, mains u)

  -- The row at the path is revived.
  revive-Step :
      (repo : ℕ) (p : Bytes) (i : ℕ) (r : Row) (t : Table)
      → Ids t
      → consistent t ≡ true
      → lookup i t ≡ some r
      → r.path ≡ p
      → (r.deleted ≡ true → r.is_main ≡ true → ⊥)
      → Step repo p t (update i (revived host detect_branch now p) t)
  revive-Step repo p i r t k c h e n =
      let f = revived host detect_branch now p in
      let (w, a) = update-accepted r f i t h (revived-Stays p r t n) c in
      record {
        ids = subst Ids (sym (update_found r f i t h)) (Ids-insert i (f r) t k);
        accepted = a;
        back = λ j s m.
            elim (if_some (j == i) (f r) s (lookup j t) (sym (lookup-update i j f r t h) ∙ m)) [
              | inl (_, q) ↦ inr (sym (ap (λ x. x.path) q) ∙ e, sym (ap (λ x. x.deleted) q))
              | inr (_, q) ↦ inl q
            ];
        forth = λ j s m. elim (Bool-cases (j == i)) [
          | inl y ↦ (
            f r,
            lookup-update i j f r t h ∙ rw y refl,
            ap (λ x. x.path) (same_row i j r s t y h m),
            λ _. refl,
          )
          | inr y ↦ (s, lookup-update i j f r t h ∙ rw y m, refl, λ d. d)
        ];
        owner = λ j s m.
            elim (if_some (j == i) (f r) s (lookup j t) (sym (lookup-update i j f r t h) ∙ m)) [
              | inl (y, q) ↦ inl (
                r,
                ap (λ x. lookup x t) ((==_iff j i).0 y) ∙ h,
                ap (λ x. x.repo_id) q,
                ap (λ x. x.path) q,
              )
              | inr (_, q) ↦ inl (s, q, refl, refl)
            ];
        here = (i, f r, updated i i f r t h ∙ rw (beq_refl i) refl, e, refl);
      }

  -- A row at the path is inserted.
  insert-Step :
      (repo : ℕ) (p : Bytes) (i : ℕ) (t u : Table)
      → Ids t
      → insert_row (found_row host detect_branch now repo p) t ≡ some (i, u)
      → lookup i t ≡ none
      → Step repo p t u
  insert-Step repo p i t u k h n =
      let r = found_row host detect_branch now repo p in
      record {
        ids = Ids-insert_row r t u i k h;
        accepted = insert_row-consistent r t u i h;
        back = λ j s m.
            elim (if_some (j == i) r s (lookup j t) (sym (insert_row-lookup r t u i j h) ∙ m)) [
              | inl (_, q) ↦ inr (sym (ap (λ x. x.path) q), sym (ap (λ x. x.deleted) q))
              | inr (_, q) ↦ inl q
            ];
        forth = λ j s m. elim (Bool-cases (j == i)) [
          | inl y ↦ absurd (none_some (sym n ∙ ap (λ q. lookup q t) (sym ((==_iff j i).0 y)) ∙ m))
          | inr y ↦ (s, insert_row-lookup r t u i j h ∙ rw y m, refl, λ d. d)
        ];
        owner = λ j s m.
            elim (if_some (j == i) r s (lookup j t) (sym (insert_row-lookup r t u i j h) ∙ m)) [
              | inl (_, q) ↦ inr (sym (ap (λ x. x.repo_id) q))
              | inr (_, q) ↦ inl (s, q, refl, refl)
            ];
        here = (i, r, insert_row-lookup r t u i i h ∙ rw (beq_refl i) refl, refl, refl);
      }
    where
      none_some : {s : Row} → none ≡ some s → ⊥
      none_some e = ground arith

  -- The write for a path is accepted.
  pub revive_or_insert-Step :
      (repo : ℕ) (p : Bytes) (t : Table)
      → Ids t
      → consistent t ≡ true
      → NoneRetired (λ q. bytes_eq q p) t
      → (u : Table) × (revive_or_insert host detect_branch now repo p t ≡ some u) × Step repo p t u
  unfolding revive_or_insert insert_row
  revive_or_insert-Step repo p t k c n =
      let r = found_row host detect_branch now repo p in
      elim (Option-cases (oldest (λ s. bytes_eq p s.path) t)) [
        | inl e ↦
            (let a : consistent (t ++ (next_id t, r) ∷ []) ≡ true =
                consistent-append r (next_id t) t (no_clash (λ q. q) r t refl e) c in
              let w = insert_row-fits r t a in
              (
                _,
                rw (e, revive_or_insert, oldest) (ap (without_id host detect_branch now) w),
                insert-Step repo p (next_id t) t _ k w (lookup-next_id t (next_id t) (omega arith)),
              ))
        | inr ((i, s), e) ↦
            (let (l, b) = oldest-lookup (λ s. bytes_eq p s.path) t i s k e in
              let q : s.path ≡ p = sym ((bytes_eq_iff p s.path).0 b) in
              let v : s.deleted ≡ true → s.is_main ≡ true → ⊥ =
                λ d m. true_false (sym (ap (λ x. bytes_eq x p) q ∙ beq_refl p) ∙ n i s l d m) in
              (
                _,
                rw (e, revive_or_insert, oldest)
                    (update-accepted s (revived host detect_branch now p) i t l
                      (revived-Stays p s t v) c).0,
                revive-Step repo p i s t k c l q v,
              ))
      ]
    where
      true_false : true ≡ false → ⊥
      true_false e = ground arith
