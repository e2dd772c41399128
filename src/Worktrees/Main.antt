-- ===== src/Worktrees/Main.antt =====
-- `EnsureMainWorktree` and `LookupMainWorktree`.
use treeman.Prelude.{
  ℕ, Bool, true, false, ◌&&◌, [], ◌∷◌, ◌++◌, Option, none, some, ◌==◌, ==_iff, if◌then◌else◌, All,
  ◌≡◌, refl, sym, ap, subst, ◌∙◌, arith, Bool-cases, Option-cases, inl, inr, or_false, not_and,
}
use treeman.Prelude.Text.{Bytes}
use treeman.Prelude.Map.{lookup, nat_key, beq_refl, bytes_key}
use treeman.Worktrees.{
  Row, Table, at_path, clash, conflicts, consistent, enrolled, ensure_main, given, live_main,
  lookup_main, new_row, newest, next_id, oldest, update, with_id,
}
use treeman.Worktrees.Table.{
  Ids, first-row, later-row, no_row, insert_row-consistent, insert_row-fits, insert_row-lookup,
  lookup-update, oldest-lookup,
}
use treeman.Worktrees.Consistent.{Stays, main_clash, consistent-append, no_clash, update-accepted}

-- The condition of `LookupMainWorktree`.
abbrev main_of : ℕ → Row → Bool
main_of repo r = r.repo_id == repo && live_main r

-- No later row is the main one as well.
no-newest :
    (r : Row) (t : Table)
    → live_main r ≡ true
    → conflicts r t ≡ false
    → newest (main_of r.repo_id) t ≡ none
unfolding newest conflicts
no-newest r [] m c = refl
no-newest r ((i, x) ∷ t) m c =
    let (a, b) = or_false (clash r x) (conflicts r t) c in
    let n : main_of r.repo_id x ≡ false =
      ground (arith, a, m, ==_iff r.repo_id x.repo_id, ==_iff x.repo_id r.repo_id) in
    rw (no-newest r t m b) (rw n refl)

no_clash_with :
    (i : ℕ) (s r : Row) (t : Table)
    → lookup i t ≡ some r
    → conflicts s t ≡ false
    → clash s r ≡ false
unfolding conflicts
no_clash_with i s r [] h c = absurd (no_row i r h)
no_clash_with i s r ((j, x) ∷ t) h c =
    let (a, b) = or_false (clash s x) (conflicts s t) c in
    elim (Bool-cases (i == j)) [
      | inl e ↦ ap (clash s) (sym (first-row i j x r t e h)) ∙ a
      | inr e ↦ no_clash_with i s r t (later-row i j x r t e h) b
    ]

-- The main row of a repository is found.
newest-main :
    (i : ℕ) (r : Row) (t : Table)
    → consistent t ≡ true
    → lookup i t ≡ some r
    → live_main r ≡ true
    → newest (main_of r.repo_id) t ≡ some (i, r)
unfolding newest consistent
newest-main i r [] c h m = absurd (no_row i r h)
newest-main i r ((j, s) ∷ t) c h m =
    let (a, b) = not_and (conflicts s t) (consistent t) c in
    elim (Bool-cases (i == j)) [
      | inl e ↦
          (let q : s ≡ r = first-row i j s r t e h in
            let n = no-newest r t m (ap (λ x. conflicts x t) (sym q) ∙ a) in
            let y : main_of r.repo_id r ≡ true = ground (arith, beq_refl r.repo_id, m) in
            rw n (
              ap (λ x. if main_of r.repo_id x then some (j, x) else none) q
              ∙ rw y (ap (λ k. some (k, r)) (sym ((==_iff i j).0 e)))))
      | inr e ↦ rw (newest-main i r t b (later-row i j s r t e h) m) refl
    ]

-- No live row of the repository is its main worktree.
abbrev pub NoMain : ℕ → Table → Type 0
NoMain repo t = All (λ x. main_of repo x.1 ≡ false) t

enrolled-Stays :
    (slug : Bytes) (br : Option Bytes) (s : Row) (t : Table)
    → NoMain s.repo_id t
    → Stays s (enrolled slug br s) t
enrolled-Stays slug br s t n = record { path = refl; repo = refl; main = mains t n }
  where
    mains :
        (u : Table)
        → NoMain s.repo_id u
        → All (λ x. main_clash (enrolled slug br s) x.1 ≡ true → main_clash s x.1 ≡ true) u
    mains [] k = tt
    mains ((i, x) ∷ u) (a, k) = (
      λ e. ground (arith, e, a, ==_iff s.repo_id x.repo_id, ==_iff x.repo_id s.repo_id),
      mains u k,
    )

-- A main row clashes with none when no row is at its path, and no row is the main one.
apart :
    (fold : Bytes → Bytes) (r : Row) (t : Table)
    → NoMain r.repo_id t
    → oldest (at_path fold r.path) t ≡ none
    → All (λ x. clash x.1 r ≡ false) t
apart fold r t n o = both t n (no_clash fold (record r { is_main = false }) t refl o)
  where
    both :
        (u : Table)
        → NoMain r.repo_id u
        → All (λ x. clash x.1 (record r { is_main = false }) ≡ false) u
        → All (λ x. clash x.1 r ≡ false) u
    both [] k c = tt
    both ((i, x) ∷ u) (a, k) (b, c) = (ground (arith, a, b), both u k c)

-- The main row that a call leaves, and the look-up of it.
pub record Enrolled (fold : Bytes → Bytes) (repo : ℕ) (path slug : Bytes) (t : Table)
    (out : Option (ℕ × Table)) : Type 0 where
  pub id : ℕ
  pub table : Table
  pub row : Row
  pub result : out ≡ some (id, table)
  pub looked_up : lookup_main repo table ≡ some (id, row)
  pub at_place : at_path fold path row ≡ true
  pub has_slug : row.slug ≡ slug
  pub others : (j : ℕ) → (j == id) ≡ false → lookup j table ≡ lookup j t

-- In a table that keeps the schema, where the repository has no live main worktree and any row at the
-- path is its own, `EnsureMainWorktree` succeeds, and `LookupMainWorktree` then finds the row of the
-- id that it returns, which is at the path and has the slug; no other row has changed.
pub ensure_main-Enrolled :
    (fold : Bytes → Bytes) (repo : ℕ) (path slug branch : Bytes) (t : Table)
    → Ids t
    → consistent t ≡ true
    → NoMain repo t
    → ((i : ℕ) (s : Row) → lookup i t ≡ some s → at_path fold path s ≡ true → s.repo_id ≡ repo)
    → Enrolled fold repo path slug t (ensure_main fold repo path slug branch t)
unfolding ensure_main lookup_main
ensure_main-Enrolled fold repo path slug branch t k c n own =
    elim (Option-cases (oldest (at_path fold path) t)) [
      | inl e ↦
          (let r = new_row repo path slug (given branch) none true in
            let w =
              insert_row-fits r t (consistent-append r (next_id t) t (apart fold r t n e) c) in
            let f =
              insert_row-lookup r t _ (next_id t) (next_id t) w ∙ rw (beq_refl (next_id t)) refl in
            record {
              id = next_id t;
              table = t ++ (next_id t, r) ∷ [];
              row = r;
              result = rw (e, ensure_main, oldest) w;
              looked_up =
                  newest-main (next_id t) r _ (insert_row-consistent r t _ (next_id t) w) f refl;
              at_place = beq_refl (fold path);
              has_slug = refl;
              others = λ j m. insert_row-lookup r t _ (next_id t) j w ∙ rw m refl;
            })
      | inr ((i, s), e) ↦
          (let (l, a) = oldest-lookup (at_path fold path) t i s k e in
            let q = own i s l a in
            let f = enrolled slug (given branch) in
            let (w, d) =
              update-accepted s f i t l
                (enrolled-Stays slug (given branch) s t (subst (λ m. NoMain m t) (sym q) n)) c in
            record {
              id = i;
              table = update i f t;
              row = f s;
              result = rw (e, ensure_main, oldest) (ap (with_id i) w);
              looked_up =
                  ap (λ m. newest (main_of m) (update i f t)) (sym q)
                  ∙ newest-main i (f s) (update i f t) d
                      (lookup-update i i f s t l ∙ rw (beq_refl i) refl) refl;
              at_place = a;
              has_slug = refl;
              others = λ j m. lookup-update i j f s t l ∙ rw m refl;
            })
    ]
