-- ===== src/Watcher/Classify.antt =====
-- Which databases an event's path concerns.
use treeman.Prelude.{
  ℕ, Bool, true, false, ◌&&◌, List, [], ◌∷◌, ◌++◌, Option, none, some, ◌==◌, ==_iff, if◌then◌else◌,
  ◌≡◌, refl, sym, ap, subst, ◌∙◌, arith, Bool-cases, inl, inr,
}
use treeman.Prelude.Text.{Bytes}
use treeman.Watcher.{Match, WatcherPath, has_match, match_all, matches_of, classify}

-- The label under which a database is listed.
unfoldable pub label_of : ℕ → List Match → Option Bytes
label_of i [] = none
label_of i (m ∷ ms) = if i == m.db_index then some m.label else label_of i ms

-- The label of the first input of a database whose glob covers the path.
unfoldable pub first_label : (Bytes → Bytes → Bool) → Bytes → ℕ → List WatcherPath → Option Bytes
first_label path_match r i [] = none
first_label path_match r i (p ∷ ps) =
    if i == p.db_index && path_match p.glob r then some p.label else first_label path_match r i ps

-- No database twice.
abbrev pub Once : List Match → Type 0
Once [] = Unit
Once (m ∷ ms) = (has_match m.db_index ms ≡ false) × Once ms

abbrev or_else : Option Bytes → Option Bytes → Option Bytes
or_else none o = o
or_else (some a) o = some a

label_of-append :
    (i : ℕ) (ms : List Match) (m : Match)
    → label_of i (ms ++ m ∷ []) ≡ or_else (label_of i ms) (label_of i (m ∷ []))
unfolding label_of
label_of-append i [] m = refl
label_of-append i (x ∷ ms) m = elim (Bool-cases (i == x.db_index)) [
  | inl e ↦ rw e refl
  | inr e ↦ rw e (label_of-append i ms m)
]

label_of-has : (i : ℕ) (ms : List Match) → has_match i ms ≡ false → label_of i ms ≡ none
unfolding label_of has_match
label_of-has i [] h = refl
label_of-has i (x ∷ ms) h = ground (arith, h, label_of-has i ms)

label_of-listed :
    (i : ℕ) (ms : List Match) → has_match i ms ≡ true → (s : Bytes) × (label_of i ms ≡ some s)
unfolding label_of has_match
label_of-listed i [] h = absurd (ground arith)
label_of-listed i (x ∷ ms) h = elim (Bool-cases (i == x.db_index)) [
  | inl e ↦ (x.label, rw e refl)
  | inr e ↦ rw e (label_of-listed i ms (ground (arith, h, e)))
]

Once-append :
    (ms : List Match) (m : Match) → Once ms → has_match m.db_index ms ≡ false → Once (ms ++ m ∷ [])
unfolding has_match
Once-append [] m o h = (refl, tt)
Once-append (x ∷ ms) m (f, o) h = (apart ms f, Once-append ms m o (ground (arith, h)))
  where
    apart :
        (ys : List Match)
        → has_match x.db_index ys ≡ false
        → has_match x.db_index (ys ++ m ∷ []) ≡ false
    apart [] g = ground (arith, h)
    apart (y ∷ ys) g = ground (arith, g, apart ys)

or_else-none : (o : Option Bytes) → or_else o none ≡ o
or_else-none none = refl
or_else-none (some a) = refl

or_else_assoc : (a b c : Option Bytes) → or_else (or_else a b) c ≡ or_else a (or_else b c)
or_else_assoc none b c = refl
or_else_assoc (some a) b c = refl

module _ (path_match : Bytes → Bytes → Bool) (r : Bytes) where
  match_one : WatcherPath → List Match → List Match
  match_one p ms =
      if has_match p.db_index ms
      then ms
      else if path_match p.glob r
      then ms ++ record { db_index = p.db_index; label = p.label } ∷ []
      else ms

  match_one-label :
      (i : ℕ) (p : WatcherPath) (ms : List Match)
      → label_of i (match_one p ms)
        ≡ or_else
            (label_of i ms)
            (if i == p.db_index && path_match p.glob r then some p.label else none)
  unfolding match_one label_of
  match_one-label i p ms = elim (Bool-cases (has_match p.db_index ms)) [
    | inl e ↦ rw e (elim (Bool-cases (i == p.db_index)) [
      | inl y ↦
          (let (s, l) =
              label_of-listed i ms (ap (λ n. has_match n ms) ((==_iff i p.db_index).0 y) ∙ e) in
            rw l refl)
      | inr y ↦ rw y (sym (or_else-none (label_of i ms)))
    ])
    | inr e ↦ rw e (elim (Bool-cases (path_match p.glob r)) [
      | inl m ↦ rw m (
          label_of-append i ms (record { db_index = p.db_index; label = p.label })
          ∙ ap (or_else (label_of i ms)) (both (i == p.db_index)))
      | inr m ↦ rw m (
          sym (or_else-none (label_of i ms))
          ∙ ap (or_else (label_of i ms)) (neither (i == p.db_index)))
    ])
  ]
    where
      both :
          (b : Bool)
          → (if b then some p.label else none) ≡ (if b && true then some p.label else none)
      both true = refl
      both false = refl

      neither : (b : Bool) → none ≡ (if b && false then some p.label else none)
      neither true = refl
      neither false = refl

  match_one-Once : (p : WatcherPath) (ms : List Match) → Once ms → Once (match_one p ms)
  unfolding match_one
  match_one-Once p ms o = elim (Bool-cases (has_match p.db_index ms)) [
    | inl e ↦ rw e o
    | inr e ↦ rw e (elim (Bool-cases (path_match p.glob r)) [
      | inl m ↦ rw m (Once-append ms _ o e)
      | inr m ↦ rw m o
    ])
  ]

  -- The loop over the inputs.
  match_all-label :
      (rel : Bytes → Option Bytes) (repo : Bytes) (all : List WatcherPath) (i : ℕ)
      (ps : List WatcherPath) (ms : List Match)
      → label_of i (match_all rel path_match repo all r ps ms)
        ≡ or_else (label_of i ms) (first_label path_match r i ps)
  unfolding match_all first_label match_one
  match_all-label rel repo all i [] ms = sym (or_else-none (label_of i ms))
  match_all-label rel repo all i (p ∷ ps) ms =
      match_all-label rel repo all i ps (match_one p ms)
      ∙ ap (λ o. or_else o (first_label path_match r i ps)) (match_one-label i p ms)
      ∙ or_else_assoc (label_of i ms) _ _
      ∙ ap (or_else (label_of i ms)) (first (i == p.db_index && path_match p.glob r))
    where
      first :
          (b : Bool)
          → or_else (if b then some p.label else none) (first_label path_match r i ps)
            ≡ (if b then some p.label else first_label path_match r i ps)
      first true = refl
      first false = refl

  match_all-Once :
      (rel : Bytes → Option Bytes) (repo : Bytes) (all ps : List WatcherPath) (ms : List Match)
      → Once ms
      → Once (match_all rel path_match repo all r ps ms)
  unfolding match_all match_one
  match_all-Once rel repo all [] ms o = o
  match_all-Once rel repo all (p ∷ ps) ms o =
      match_all-Once rel repo all ps (match_one p ms) (match_one-Once p ms o)

-- For a path inside the repository, `classify` lists each database at most once, and exactly the
-- databases with an input whose glob covers the path, under the label of the first such input.
pub classify-first :
    (rel : Bytes → Option Bytes) (path_match : Bytes → Bytes → Bool) (repo : Bytes)
    (paths : List WatcherPath) (path r : Bytes)
    → rel path ≡ some r
    → Once (classify rel path_match repo paths path)
      × ((i : ℕ)
          → label_of i (classify rel path_match repo paths path) ≡ first_label path_match r i paths)
unfolding classify label_of
classify-first rel path_match repo paths path r h = (
  subst (λ o. Once (matches_of rel path_match repo paths o)) (sym h)
      (match_all-Once path_match r rel repo paths paths [] tt),
  λ i.
      ap (λ o. label_of i (matches_of rel path_match repo paths o)) h
      ∙ match_all-label path_match r rel repo paths i paths [],
)
