-- ===== src/Daemon/InFlight/Order.antt =====
-- The reruns of an entry in the order of their indices.
use treeman.Prelude.{
  ℤ, pos, negsuc, int_eq, int_le, int_eq_iff, int_le_total, true, false, List, [], ◌∷◌, Option,
  none, some, if◌then◌else◌, ◌≡◌, refl, arith, Bool-cases, inl, inr, ap, ◌∙◌,
}
use treeman.Prelude.Map.{lookup, int_key}
use treeman.Daemon.InFlight.{WatchRerun, every, insert_by_index, sorted_reruns}

-- The first rerun of a database index.
unfoldable pub rerun_of : ℤ → List WatchRerun → Option WatchRerun
rerun_of i [] = none
rerun_of i (r ∷ rs) = if int_eq i r.db_index then some r else rerun_of i rs

abbrev From : ℤ → List WatchRerun → Type 0
From i [] = Unit
From i (r ∷ rs) = int_le i r.db_index ≡ true

-- Ordered by database index.
abbrev pub Ordered : List WatchRerun → Type 0
Ordered [] = Unit
Ordered (r ∷ rs) = From r.db_index rs × Ordered rs

abbrev pub for_every : Option WatchRerun → List WatchRerun
for_every none = []
for_every (some r) = (record r { db_index = every }) ∷ []

abbrev pub every_entry : Option WatchRerun → List (ℤ × WatchRerun)
every_entry none = []
every_entry (some r) = (every, record r { db_index = every }) ∷ []

-- The key of a rerun is its index.
abbrev pub Keyed : List (ℤ × WatchRerun) → Type 0
Keyed [] = Unit
Keyed ((i, r) ∷ m) = (r.db_index ≡ i) × Keyed m

int_le-int_eq : (a b : ℤ) → int_le a b ≡ false → int_eq b a ≡ false
int_le-int_eq (pos a) (pos b) h = ground arith
int_le-int_eq (pos a) (negsuc b) h = refl
int_le-int_eq (negsuc a) (pos b) h = refl
int_le-int_eq (negsuc a) (negsuc b) h = ground arith

rerun_of-insert :
    (i : ℤ) (r : WatchRerun) (rs : List WatchRerun)
    → rerun_of i (insert_by_index r rs) ≡ (if int_eq i r.db_index then some r else rerun_of i rs)
unfolding rerun_of insert_by_index
rerun_of-insert i r [] = refl
rerun_of-insert i r (x ∷ xs) = elim (Bool-cases (int_le r.db_index x.db_index)) [
  | inl h ↦ rw h refl
  | inr h ↦ rw h (elim (Bool-cases (int_eq i x.db_index)) [
    | inl e ↦
        rw
          (
            e,
            ap (λ k. int_eq k r.db_index) ((int_eq_iff i x.db_index).0 e)
                ∙ int_le-int_eq r.db_index x.db_index h,
          )
          refl
    | inr e ↦ rw (e, rerun_of-insert i r xs) refl
  ])
]

pub rerun_of-sorted :
    (i : ℤ) (m : List (ℤ × WatchRerun)) → Keyed m → rerun_of i (sorted_reruns m) ≡ lookup i m
unfolding sorted_reruns rerun_of lookup
rerun_of-sorted i [] h = refl
rerun_of-sorted i ((k, r) ∷ m) (e, h) =
    rerun_of-insert i r (sorted_reruns m)
    ∙ ap (λ j. if int_eq i j then some r else rerun_of i (sorted_reruns m)) e
    ∙ ap (λ t. if int_eq i k then some r else t) (rerun_of-sorted i m h)

From-insert :
    (i : ℤ) (r : WatchRerun) (rs : List WatchRerun)
    → int_le i r.db_index ≡ true
    → From i rs
    → From i (insert_by_index r rs)
unfolding insert_by_index
From-insert i r [] h f = h
From-insert i r (x ∷ xs) h f = elim (Bool-cases (int_le r.db_index x.db_index)) [
  | inl y ↦ rw y h
  | inr y ↦ rw y f
]

insert-Ordered :
    (r : WatchRerun) (rs : List WatchRerun) → Ordered rs → Ordered (insert_by_index r rs)
unfolding insert_by_index
insert-Ordered r [] h = (tt, tt)
insert-Ordered r (x ∷ xs) (f, h) = elim (Bool-cases (int_le r.db_index x.db_index)) [
  | inl y ↦ rw y (y, (f, h))
  | inr y ↦
      rw y (
        From-insert x.db_index r xs (int_le_total r.db_index x.db_index y) f,
        insert-Ordered r xs h,
      )
]

pub sorted_reruns-Ordered : (m : List (ℤ × WatchRerun)) → Ordered (sorted_reruns m)
unfolding sorted_reruns
sorted_reruns-Ordered [] = tt
sorted_reruns-Ordered ((k, r) ∷ m) = insert-Ordered r (sorted_reruns m) (sorted_reruns-Ordered m)

pub sorted_every : (o : Option WatchRerun) → sorted_reruns (every_entry o) ≡ for_every o
unfolding sorted_reruns insert_by_index
sorted_every none = refl
sorted_every (some r) = refl
