-- ===== src/Pins/Counts.antt =====
-- The counts of pins against what they stand for: the handles that are not released.
use treeman.Prelude.{
  ℕ, zero, suc, ◌+◌, ◌-◌, ◌<◌, Bool, true, false, not, ◌&&◌, List, [], ◌∷◌, ◌++◌, Option, none,
  some, if◌then◌else◌, get_elem?, ◌≡◌, ◌≢◌, ◌↔◌, refl, arith, Bool-cases, inl, inr,
}
use treeman.Prelude.Text.{Bytes, bytes_eq, bytes_eq_iff}
use treeman.Prelude.Map.{lookup-insert, lookup-delete, bytes_key, lookup, insert, delete}
use treeman.Pins.{
  Counts, count_of, Handle, Pins, new, pin, unpin, set_released, release_handle, release, is_pinned,
  Step, pins, releases, Reach, start, next,
}

abbrev holds : Bytes → Handle → Bool
holds fp h = bytes_eq fp h.fingerprint && not h.released

-- How many handles on a fingerprint are not released.
pub outstanding : Bytes → List Handle → ℕ
outstanding fp [] = 0
outstanding fp (h ∷ handles) = (if holds fp h then 1 else 0) + outstanding fp handles

-- The counts are those of the handles, and no handle is on the empty fingerprint.
pub record Counted (s : Pins) : Type 0 where
  pub counted : (fp : Bytes) → count_of fp s.counts ≡ outstanding fp s.handles

new-Counted : Counted new
unfolding new count_of lookup outstanding
new-Counted = record { counted = λ fp. refl }

count_of-insert :
    (j k : Bytes) (n : ℕ) (m : Counts)
    → count_of j (insert k n m) ≡ (if bytes_eq j k then n else count_of j m)
unfolding count_of
count_of-insert j k n m = ground (arith, lookup-insert j k n m)

count_of-delete :
    (j k : Bytes) (m : Counts)
    → count_of j (delete k m) ≡ (if bytes_eq j k then 0 else count_of j m)
unfolding count_of
count_of-delete j k m = ground (arith, lookup-delete j k m)

outstanding-append :
    (fp : Bytes) (hs : List Handle) (h : Handle)
    → outstanding fp (hs ++ h ∷ []) ≡ outstanding fp hs + (if holds fp h then 1 else 0)
unfolding outstanding
outstanding-append fp [] h = omega arith
outstanding-append fp (x ∷ hs) h = omega (arith, outstanding-append fp hs h)

pin-Counted : (fp : Bytes) (s : Pins) → Counted s → Counted (pin fp s)
unfolding pin
pin-Counted [] s h = h
pin-Counted (c ∷ fp) s h = record {
  counted = λ j. ground (
    arith,
    h.counted j,
    h.counted (c ∷ fp),
    count_of-insert j (c ∷ fp) (count_of (c ∷ fp) s.counts + 1) s.counts,
    bytes_eq_iff j (c ∷ fp),
    outstanding-append j s.handles (record { fingerprint = c ∷ fp; released = false }),
  );
}

-- Releasing a handle takes one from those of its fingerprint.
outstanding-set_released :
    (j : Bytes) (i : ℕ) (hs : List Handle) (h : Handle)
    → get_elem? hs i ≡ some h
    → h.released ≡ false
    → outstanding j (set_released i hs) + (if bytes_eq j h.fingerprint then 1 else 0)
      ≡ outstanding j hs
unfolding outstanding set_released
outstanding-set_released j i [] h e n = ground arith
outstanding-set_released j zero (x ∷ hs) h e n = ground arith
outstanding-set_released j (suc i) (x ∷ hs) h e n =
    omega (arith, outstanding-set_released j i hs h e n)

count_of-unpin :
    (j k : Bytes) (m : Counts)
    → count_of j (unpin k m) ≡ count_of j m - (if bytes_eq j k then 1 else 0)
unfolding unpin
count_of-unpin j k m =
    ground
      (arith, count_of-insert j k (count_of k m - 1) m, count_of-delete j k m, bytes_eq_iff j k)

release-Counted : (i : ℕ) (s : Pins) → Counted s → Counted (release i s)
unfolding release
release-Counted i s h = go (get_elem? s.handles i) refl
  where
    go : (o : Option Handle) → get_elem? s.handles i ≡ o → Counted (release_handle i s o)
    go none e = h
    go (some x) e = elim (Bool-cases x.released) [
      | inl r ↦ rw r h
      | inr r ↦ rw r (record {
        counted = λ j. omega (
          arith,
          h.counted j,
          count_of-unpin j x.fingerprint s.counts,
          outstanding-set_released j i s.handles x e r,
        );
      })
    ]

Step-Counted : {s t : Pins} → Step s t → Counted s → Counted t
Step-Counted (pins fp s) h = pin-Counted fp s h
Step-Counted (releases i s) h = release-Counted i s h

pub Reach-Counted : {s : Pins} → Reach s → Counted s
Reach-Counted start = new-Counted
Reach-Counted (next r st) = Step-Counted st (Reach-Counted r)

-- In every state that callers can reach, in any order of pins and releases, some of which may be
-- repeated, a snapshot is pinned exactly when a handle on it is not released.
pub is_pinned_iff :
    (s : Pins) (fp : Bytes)
    → Reach s
    → fp ≢ []
    → (is_pinned s.counts fp ≡ true) ↔ (0 < outstanding fp s.handles)
unfolding is_pinned
is_pinned_iff s [] r n = absurd (n refl)
is_pinned_iff s (c ∷ fp) r n = ground (arith, (Reach-Counted r).counted (c ∷ fp))
