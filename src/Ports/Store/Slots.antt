-- ===== src/Ports/Store/Slots.antt =====
-- Lemmas on the rows of a slot.
use treeman.Prelude.{
  ℕ, Bool, true, false, ◌||◌, List, [], ◌∷◌, ◌++◌, none, some, ◌≡◌, refl, arith, All, Bool-cases,
  inl, inr,
}
use treeman.Prelude.Text.{Bytes, bytes_eq_iff}
use treeman.Ports.Store.{
  Row, same_slot, clashes, conflicts, delete_slot, find_slot, slots_of, lookup,
}
use treeman.Ports.Store.Alone.{row_of}

pub lookup-slots_of :
    (wt : ℕ) (n : Bytes) (rows : List Row) → lookup n (slots_of wt rows) ≡ find_slot wt n rows
unfolding slots_of find_slot
lookup-slots_of wt n [] = refl
lookup-slots_of wt n (r ∷ rows) = ground (arith, lookup-slots_of wt n rows)

pub same_slot-row_of :
    (repo wt : ℕ) (n : Bytes) (p : ℕ) → same_slot wt n (row_of repo wt n p) ≡ true
same_slot-row_of repo wt n p = ground (arith, bytes_eq_iff n n)

same_slot-clashes :
    (wt : ℕ) (n : Bytes) (r s : Row)
    → same_slot wt n r ≡ true
    → same_slot wt n s ≡ true
    → clashes r s ≡ true
same_slot-clashes wt n r s a b =
    ground (arith, bytes_eq_iff n r.name, bytes_eq_iff n s.name, bytes_eq_iff r.name s.name)

same_slot-conflicts :
    (wt : ℕ) (n : Bytes) (r : Row) (rows : List Row) (p : ℕ)
    → same_slot wt n r ≡ true
    → find_slot wt n rows ≡ some p
    → conflicts r rows ≡ true
unfolding find_slot conflicts
same_slot-conflicts wt n r [] p a f = absurd (ground arith)
same_slot-conflicts wt n r (s ∷ rows) p a f = elim (Bool-cases (same_slot wt n s)) [
  | inl e ↦ rw (same_slot-clashes wt n r s a e)
  | inr e ↦ rw (same_slot-conflicts wt n r rows p a (rw e at f)) (or_true (clashes r s))
]
  where
    or_true : (b : Bool) → (b || true) ≡ true
    or_true b = ground arith

-- A row that clashes with no other hides no slot.
pub find_slot-insert :
    (wt : ℕ) (n : Bytes) (r : Row) (rows : List Row) (p : ℕ)
    → conflicts r rows ≡ false
    → find_slot wt n rows ≡ some p
    → find_slot wt n (r ∷ rows) ≡ some p
unfolding find_slot
find_slot-insert wt n r rows p c f = elim (Bool-cases (same_slot wt n r)) [
  | inl e ↦ absurd (ground (arith, same_slot-conflicts wt n r rows p e f, c))
  | inr e ↦ rw e f
]

pub find_slot-row_of :
    (repo wt : ℕ) (n : Bytes) (p : ℕ) (rows : List Row)
    → find_slot wt n (row_of repo wt n p ∷ rows) ≡ some p
unfolding find_slot
find_slot-row_of repo wt n p rows = rw (same_slot-row_of repo wt n p)

pub delete_slot-none :
    (wt : ℕ) (n : Bytes) (rows : List Row)
    → find_slot wt n rows ≡ none
    → delete_slot wt n rows ≡ rows
unfolding find_slot delete_slot
delete_slot-none wt n [] f = refl
delete_slot-none wt n (r ∷ rows) f = ground (arith, delete_slot-none wt n rows)

pub delete_slot-append :
    (wt : ℕ) (n : Bytes) (xs ys : List Row)
    → delete_slot wt n (xs ++ ys) ≡ delete_slot wt n xs ++ delete_slot wt n ys
unfolding delete_slot
delete_slot-append wt n [] ys = refl
delete_slot-append wt n (r ∷ xs) ys = ground (arith, delete_slot-append wt n xs ys)

-- The row is of one of the named slots.
abbrev pub in_slots : ℕ → List Bytes → Row → Bool
in_slots wt [] r = false
in_slots wt (n ∷ ns) r = same_slot wt n r || in_slots wt ns r

pub delete_slot-in_slots :
    (wt : ℕ) (n : Bytes) (ns : List Bytes) (rows : List Row)
    → All (λ r. in_slots wt (n ∷ ns) r ≡ true) rows
    → All (λ r. in_slots wt ns r ≡ true) (delete_slot wt n rows)
unfolding delete_slot
delete_slot-in_slots wt n ns [] h = tt
delete_slot-in_slots wt n ns (r ∷ rows) (h, hs) = elim (Bool-cases (same_slot wt n r)) [
  | inl e ↦ rw e (delete_slot-in_slots wt n ns rows hs)
  | inr e ↦ rw e (rw e at h, delete_slot-in_slots wt n ns rows hs)
]

pub in_slots-append :
    (wt : ℕ) (ns : List Bytes) (n : Bytes) (r : Row)
    → in_slots wt ns r ≡ true
    → in_slots wt (ns ++ n ∷ []) r ≡ true
in_slots-append wt [] n r h = absurd (ground arith)
in_slots-append wt (m ∷ ns) n r h = ground (arith, in_slots-append wt ns n r)

pub in_slots-last :
    (repo wt : ℕ) (ns : List Bytes) (n : Bytes) (p : ℕ)
    → in_slots wt (ns ++ n ∷ []) (row_of repo wt n p) ≡ true
in_slots-last repo wt [] n p = rw (same_slot-row_of repo wt n p)
in_slots-last repo wt (m ∷ ns) n p = ground (arith, in_slots-last repo wt ns n p)
