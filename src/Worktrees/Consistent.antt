-- ===== src/Worktrees/Consistent.antt =====
-- Writes that the UNIQUE indices of the table of worktrees accept.
use treeman.Prelude.{
  ℕ, Bool, true, false, ◌&&◌, ◌||◌, [], ◌∷◌, ◌++◌, Option, none, some, ◌==◌, ==_iff, if◌then◌else◌,
  All, ◌≡◌, refl, sym, ap, ◌∙◌, arith, Bool-cases, inl, inr, or_false, or_both, not_and, and_not,
}
use treeman.Prelude.Text.{Bytes, bytes_eq, bytes_eq_iff}
use treeman.Prelude.Map.{lookup, insert, nat_key, beq_refl, bytes_key}
use treeman.Worktrees.Table.{update_found, first-row, later-row, no_row}
use treeman.Worktrees.{
  Row, Table, clash, live_main, conflicts, consistent, write, update, oldest, at_path,
}

abbrev pub main_clash : Row → Row → Bool
main_clash r s = live_main r && live_main s && r.repo_id == s.repo_id

-- Where row `r` fits in the table, so does `s`.
pub record Stays (r s : Row) (t : Table) : Type 0 where
  pub path : s.path ≡ r.path
  pub repo : s.repo_id ≡ r.repo_id
  pub main : All (λ x. main_clash s x.1 ≡ true → main_clash r x.1 ≡ true) t

clash-Stays : (b c d : Bool) → (c ≡ true → d ≡ true) → (b || d) ≡ false → (b || c) ≡ false
clash-Stays b c d f h = ground arith

clash_sym : (r s : Row) → clash r s ≡ clash s r
clash_sym r s =
    ground
      (arith, bytes_eq_iff r.path s.path, bytes_eq_iff s.path r.path, ==_iff r.repo_id s.repo_id)

clash-of_Stays :
    (r s x : Row)
    → s.path ≡ r.path
    → (main_clash s x ≡ true → main_clash r x ≡ true)
    → clash r x ≡ false
    → clash s x ≡ false
clash-of_Stays r s x p f h =
    clash-Stays (bytes_eq s.path x.path) (main_clash s x) (main_clash r x) f
      (ap (λ q. bytes_eq q x.path || main_clash r x) p ∙ h)

conflicts-Stays :
    (r s : Row) (t : Table)
    → s.path ≡ r.path
    → All (λ x. main_clash s x.1 ≡ true → main_clash r x.1 ≡ true) t
    → conflicts r t ≡ false
    → conflicts s t ≡ false
unfolding conflicts
conflicts-Stays r s [] p m h = refl
conflicts-Stays r s ((i, x) ∷ t) p (f, m) h =
    let (a, b) = or_false (clash r x) (conflicts r t) h in
    or_both (clash-of_Stays r s x p f a) (conflicts-Stays r s t p m b)

-- A row that clashes with none still does when one of them is replaced.
conflicts-insert :
    (x r s : Row) (i : ℕ) (t : Table)
    → lookup i t ≡ some r
    → (clash x r ≡ false → clash x s ≡ false)
    → conflicts x t ≡ false
    → conflicts x (insert i s t) ≡ false
unfolding conflicts insert
conflicts-insert x r s i [] h f c = absurd (no_row i r h)
conflicts-insert x r s i ((j, y) ∷ t) h f c =
    let (a, b) = or_false (clash x y) (conflicts x t) c in
    elim (Bool-cases (i == j)) [
      | inl e ↦ rw e (or_both (f (ap (clash x) (sym (first-row i j y r t e h)) ∙ a)) b)
      | inr e ↦ rw e (or_both a (conflicts-insert x r s i t (later-row i j y r t e h) f b))
    ]

-- An UPDATE that keeps the place of its row is accepted.
pub consistent-insert :
    (r s : Row) (i : ℕ) (t : Table)
    → lookup i t ≡ some r
    → Stays r s t
    → consistent t ≡ true
    → consistent (insert i s t) ≡ true
unfolding consistent insert
consistent-insert r s i [] h m c = refl
consistent-insert r s i ((j, y) ∷ t) h m c =
    let (a, b) = not_and (conflicts y t) (consistent t) c in
    elim (Bool-cases (i == j)) [
      | inl e ↦
          (let q = first-row i j y r t e h in
            rw e (
              and_not (conflicts-Stays r s t m.path m.main.1 (ap (λ x. conflicts x t) (sym q) ∙ a))
                b))
      | inr e ↦ rw e (
          and_not
            (conflicts-insert y r s i t (later-row i j y r t e h)
              (λ n. clash_sym y s ∙ clash-of_Stays r s y m.path m.main.0 (clash_sym r y ∙ n)) a)
            (consistent-insert r s i t (later-row i j y r t e h)
              (record { path = m.path; repo = m.repo; main = m.main.1 }) b))
    ]

conflicts-append :
    (x r : Row) (i : ℕ) (t : Table)
    → conflicts x t ≡ false
    → clash x r ≡ false
    → conflicts x (t ++ (i, r) ∷ []) ≡ false
unfolding conflicts
conflicts-append x r i [] c n = or_both n refl
conflicts-append x r i ((j, y) ∷ t) c n =
    let (a, b) = or_false (clash x y) (conflicts x t) c in or_both a (conflicts-append x r i t b n)

pub consistent-append :
    (r : Row) (i : ℕ) (t : Table)
    → All (λ x. clash x.1 r ≡ false) t
    → consistent t ≡ true
    → consistent (t ++ (i, r) ∷ []) ≡ true
unfolding consistent conflicts
consistent-append r i [] n c = refl
consistent-append r i ((j, y) ∷ t) (m, n) c =
    let (a, b) = not_and (conflicts y t) (consistent t) c in
    and_not (conflicts-append y r i t a m) (consistent-append r i t n b)

-- A row with no main flag clashes with none when no row is at its path.
pub no_clash :
    (fold : Bytes → Bytes) (r : Row) (t : Table)
    → r.is_main ≡ false
    → oldest (at_path fold r.path) t ≡ none
    → All (λ x. clash x.1 r ≡ false) t
unfolding oldest
no_clash fold r [] m h = tt
no_clash fold r ((i, x) ∷ t) m h = elim (Bool-cases (at_path fold r.path x)) [
  | inl e ↦
      (let q : ◌≡◌ {A = Option (ℕ × Row)} (some (i, x)) none =
          sym (ap (λ b. if b then some (i, x) else oldest (at_path fold r.path) t) e) ∙ h in
        absurd (some_none q))
  | inr e ↦
      (let q : oldest (at_path fold r.path) t ≡ none =
          sym (ap (λ b. if b then some (i, x) else oldest (at_path fold r.path) t) e) ∙ h in
        (apart e, no_clash fold r t m q))
]
  where
    some_none : ◌≡◌ {A = Option (ℕ × Row)} (some (i, x)) none → ⊥
    some_none e = ground arith

    other : bytes_eq (fold r.path) (fold x.path) ≡ false → bytes_eq x.path r.path ≡ false
    other e = elim (Bool-cases (bytes_eq x.path r.path)) [
      | inl y ↦ absurd (
          true_false (
            sym (beq_refl (fold r.path))
            ∙ ap (λ p. bytes_eq (fold r.path) (fold p)) (sym ((bytes_eq_iff x.path r.path).0 y))
            ∙ e))
      | inr y ↦ y
    ]
      where
        true_false : true ≡ false → ⊥
        true_false e = ground arith

    apart : bytes_eq (fold r.path) (fold x.path) ≡ false → clash x r ≡ false
    apart e = ground (arith, other e, m)

pub update-accepted :
    (r : Row) (f : Row → Row) (i : ℕ) (t : Table)
    → lookup i t ≡ some r
    → Stays r (f r) t
    → consistent t ≡ true
    → (write (update i f t) ≡ some (update i f t)) × (consistent (update i f t) ≡ true)
unfolding write update
update-accepted r f i t h s c =
    let u = update_found r f i t h in
    let k = consistent-insert r (f r) i t h s c in
    (ap write u ∙ rw k (ap some (sym u)), ap consistent u ∙ k)
