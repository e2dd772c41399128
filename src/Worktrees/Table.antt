-- ===== src/Worktrees/Table.antt =====
-- The rows of the table of worktrees by id, and what an accepted write keeps.
use treeman.Prelude.{
  ℕ, ◌≤◌, Bool, true, false, [], ◌∷◌, ◌++◌, Option, none, some, ◌==◌, ==_iff, if◌then◌else◌, ◌≡◌,
  refl, ◌⊎◌, sym, ap, subst, ◌∙◌, arith, Bool-cases, Option-cases, inl, inr,
}
use treeman.Prelude.Map.{lookup, insert, nat_key, lookup-insert}
use treeman.Worktrees.{Row, Table, consistent, write, update, next_id, oldest, insert_row, with_id}

-- No id twice.
abbrev pub Ids : Table → Type 0
Ids [] = Unit
Ids ((i, r) ∷ t) = (lookup i t ≡ none) × Ids t

pub oldest-lookup :
    (p : Row → Bool) (t : Table) (i : ℕ) (r : Row)
    → Ids t
    → oldest p t ≡ some (i, r)
    → (lookup i t ≡ some r) × (p r ≡ true)
unfolding oldest lookup
oldest-lookup p [] i r k h = absurd (ground arith)
oldest-lookup p ((j, s) ∷ t) i r (f, k) h = elim (Bool-cases (p s)) [
  | inl e ↦
      (let q : some (j, s) ≡ some (i, r) =
          sym (ap (λ b. if b then some (j, s) else oldest p t) e) ∙ h in
        ground (arith, q, e, ==_iff j j))
  | inr e ↦
      (let q : oldest p t ≡ some (i, r) =
          sym (ap (λ b. if b then some (j, s) else oldest p t) e) ∙ h in
        let (a, b) = oldest-lookup p t i r k q in (ground (arith, f, a, ==_iff i j), b))
]

-- The rows that hold `some r` at an id, in a table whose first row has id `j`.
pub first-row :
    (i j : ℕ) (x r : Row) (t : Table) → (i == j) ≡ true → lookup i ((j, x) ∷ t) ≡ some r → x ≡ r
unfolding lookup
first-row i j x r t e h = ground (arith, e)

pub later-row :
    (i j : ℕ) (x r : Row) (t : Table)
    → (i == j) ≡ false
    → lookup i ((j, x) ∷ t) ≡ some r
    → lookup i t ≡ some r
unfolding lookup
later-row i j x r t e h = ground (arith, e)

pub no_row : (i : ℕ) (r : Row) → lookup i [] ≡ some r → ⊥
unfolding lookup
no_row i r e = ground arith

pub lookup-update :
    (i j : ℕ) (f : Row → Row) (r : Row) (t : Table)
    → lookup i t ≡ some r
    → lookup j (update i f t) ≡ (if j == i then some (f r) else lookup j t)
unfolding update
lookup-update i j f r t h = rw (h, lookup) (lookup-insert j i (f r) t)

pub lookup-next_id : (t : Table) (i : ℕ) → next_id t ≤ i → lookup i t ≡ none
unfolding next_id lookup
lookup-next_id [] i h = refl
lookup-next_id ((j, r) ∷ t) i h = ground (arith, lookup-next_id t i)

pub lookup-append :
    (t : Table) (i j : ℕ) (r : Row)
    → lookup i t ≡ none
    → lookup j (t ++ (i, r) ∷ []) ≡ (if j == i then some r else lookup j t)
unfolding lookup
lookup-append [] i j r h = refl
lookup-append ((k, s) ∷ t) i j r h = ground (arith, lookup-append t i j r, ==_iff i k)

pub write-some : (t u : Table) → write t ≡ some u → (t ≡ u) × (consistent u ≡ true)
unfolding write
write-some t u h = elim (Bool-cases (consistent t)) [
  | inl e ↦ ground (arith, e)
  | inr e ↦ ground (arith, e)
]

pub with_id-some :
    (i j : ℕ) (o : Option Table) (u : Table) → with_id i o ≡ some (j, u) → (o ≡ some u) × (i ≡ j)
with_id-some i j none u h = absurd (ground arith)
with_id-some i j (some t) u h = (ground arith, ground arith)

-- An accepted INSERT adds its row and keeps the others.
pub insert_row-lookup :
    (r : Row) (t u : Table) (i j : ℕ)
    → insert_row r t ≡ some (i, u)
    → lookup j u ≡ (if j == i then some r else lookup j t)
unfolding insert_row
insert_row-lookup r t u i j h =
    let (w, n) = with_id-some (next_id t) i _ u h in
    let (e, c) = write-some (t ++ (next_id t, r) ∷ []) u w in
    sym (ap (lookup j) e)
    ∙ lookup-append t (next_id t) j r (lookup-next_id t (next_id t) (omega arith))
    ∙ ap (λ k. if j == k then some r else lookup j t) n

pub insert_row-consistent :
    (r : Row) (t u : Table) (i : ℕ) → insert_row r t ≡ some (i, u) → consistent u ≡ true
unfolding insert_row
insert_row-consistent r t u i h =
    let (w, n) = with_id-some (next_id t) i _ u h in (write-some (t ++ (next_id t, r) ∷ []) u w).1

pub lookup-update-none :
    (i j : ℕ) (f : Row → Row) (t : Table) → lookup i t ≡ none → lookup j (update i f t) ≡ lookup j t
unfolding update
lookup-update-none i j f t h = rw (h, update, lookup) refl

-- An UPDATE of any id, as another row sees it.
pub updated :
    (i j : ℕ) (f : Row → Row) (r : Row) (t : Table)
    → lookup j t ≡ some r
    → lookup j (update i f t) ≡ (if j == i then some (f r) else some r)
updated i j f r t h = elim (Bool-cases (j == i)) [
  | inl e ↦
      lookup-update i j f r t (ap (λ n. lookup n t) (sym ((==_iff j i).0 e)) ∙ h)
      ∙ ap (λ o. if j == i then some (f r) else o) h
  | inr e ↦ elim (Option-cases (lookup i t)) [
    | inl n ↦ lookup-update-none i j f t n ∙ h ∙ rw e refl
    | inr (s, m) ↦ lookup-update i j f s t m ∙ rw e h
  ]
]

pub Ids-insert : (i : ℕ) (s : Row) (t : Table) → Ids t → Ids (insert i s t)
unfolding insert lookup
Ids-insert i s [] k = (refl, tt)
Ids-insert i s ((j, x) ∷ t) (f, k) = elim (Bool-cases (i == j)) [
  | inl e ↦ rw e (ap (λ n. lookup n t) ((==_iff i j).0 e) ∙ f, k)
  | inr e ↦ rw e (lookup-insert j i s t ∙ ground (arith, e, f), Ids-insert i s t k)
]

pub Ids-append : (i : ℕ) (r : Row) (t : Table) → Ids t → lookup i t ≡ none → Ids (t ++ (i, r) ∷ [])
unfolding lookup
Ids-append i r [] k h = (refl, tt)
Ids-append i r ((j, x) ∷ t) (f, k) h =
    let (n, m) = apart (i == j) h in
    (lookup-append t i j r m ∙ ground (arith, f, n), Ids-append i r t k m)
  where
    apart :
        (b : Bool) → (if b then some x else lookup i t) ≡ none → (b ≡ false) × (lookup i t ≡ none)
    apart true e = absurd (ground arith)
    apart false e = (refl, e)

pub Ids-insert_row : (r : Row) (t u : Table) (i : ℕ) → Ids t → insert_row r t ≡ some (i, u) → Ids u
unfolding insert_row
Ids-insert_row r t u i k h =
    let (w, n) = with_id-some (next_id t) i _ u h in
    let (e, c) = write-some (t ++ (next_id t, r) ∷ []) u w in
    subst Ids e (Ids-append (next_id t) r t k (lookup-next_id t (next_id t) (omega arith)))

pub update_found :
    (r : Row) (f : Row → Row) (i : ℕ) (t : Table)
    → lookup i t ≡ some r
    → update i f t ≡ insert i (f r) t
unfolding update
update_found r f i t h = rw (h, update, lookup) refl

pub if_some :
    (b : Bool) (x s : Row) (o : Option Row)
    → (if b then some x else o) ≡ some s
    → ((b ≡ true) × (x ≡ s)) ⊎ ((b ≡ false) × (o ≡ some s))
if_some true x s o h = inl (refl, ground arith)
if_some false x s o h = inr (refl, h)

pub same_row :
    (i j : ℕ) (r s : Row) (t : Table)
    → (j == i) ≡ true
    → lookup i t ≡ some r
    → lookup j t ≡ some s
    → r ≡ s
same_row i j r s t e h m =
    let q : ◌≡◌ {A = Option Row} (some r) (some s) =
      sym h ∙ ap (λ n. lookup n t) (sym ((==_iff j i).0 e)) ∙ m in
    ground (arith, q)

pub insert_row-fits :
    (r : Row) (t : Table)
    → consistent (t ++ (next_id t, r) ∷ []) ≡ true
    → insert_row r t ≡ some (next_id t, t ++ (next_id t, r) ∷ [])
unfolding insert_row write
insert_row-fits r t h = rw h refl
