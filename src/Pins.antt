-- ===== src/Pins.antt =====
-- internal/snapshot/pin.go: pins that guard a snapshot against eviction. A release function is a
-- handle, which keeps its own `released` flag; what it does is `release`.
pub mod Counts
pub mod Tests
use treeman.Prelude.{
  ℕ, zero, suc, ◌+◌, ◌-◌, Bool, true, false, List, [], ◌∷◌, ◌++◌, Option, none, some, leb, ltb,
  if◌then◌else◌, get_elem?,
}
use treeman.Prelude.Text.{Bytes, bytes_eq}
use treeman.Prelude.Map.{lookup, insert, delete, bytes_key}

-- `pinCount`.
abbrev pub Counts : Type 0
Counts = List (Bytes × ℕ)

abbrev pub or_zero : Option ℕ → ℕ
or_zero none = 0
or_zero (some n) = n

-- `pinCount[fingerprint]`, which is 0 for an absent key.
unfoldable pub count_of : Bytes → Counts → ℕ
unfolding lookup
count_of fp counts = or_zero (lookup fp counts)

-- What a release function closes over.
pub record Handle : Type 0 where
  pub fingerprint : Bytes
  pub released : Bool

-- The counts, and the handles in the order in which they were given out.
pub record Pins : Type 0 where
  pub counts : Counts
  pub handles : List Handle

pub new : Pins
new = record { counts = []; handles = [] }

-- `Pin`; an empty fingerprint gets a function that does nothing, which is no handle here.
unfoldable pub pin : Bytes → Pins → Pins
unfolding count_of insert
pin [] s = s
pin (c ∷ fp) s = record {
  counts = insert (c ∷ fp) (count_of (c ∷ fp) s.counts + 1) s.counts;
  handles = s.handles ++ (record { fingerprint = c ∷ fp; released = false }) ∷ [];
}

-- One pin less.
unfoldable pub unpin : Bytes → Counts → Counts
unfolding count_of insert delete
unpin fp counts =
    if leb (count_of fp counts) 1
    then delete fp counts
    else insert fp (count_of fp counts - 1) counts

-- The handle at an index is released.
unfoldable pub set_released : ℕ → List Handle → List Handle
set_released i [] = []
set_released zero (h ∷ handles) = (record h { released = true }) ∷ handles
set_released (suc i) (h ∷ handles) = h ∷ set_released i handles

abbrev pub release_handle : ℕ → Pins → Option Handle → Pins
unfolding unpin set_released
release_handle i s none = s
release_handle i s (some h) =
    if h.released
    then s
    else record { counts = unpin h.fingerprint s.counts; handles = set_released i s.handles }

-- The call of the release function at an index.
unfoldable pub release : ℕ → Pins → Pins
unfolding release_handle
release i s = release_handle i s (get_elem? s.handles i)

-- `IsPinned`.
unfoldable pub is_pinned : Counts → Bytes → Bool
unfolding count_of
is_pinned counts [] = false
is_pinned counts (c ∷ fp) = ltb 0 (count_of (c ∷ fp) counts)

-- Callers pin and release in any order.
pub data Step : Pins → Pins → Type 0 where
  pins : (fp : Bytes) (s : Pins) → Step s (pin fp s)
  releases : (i : ℕ) (s : Pins) → Step s (release i s)

pub data Reach : Pins → Type 0 where
  start : Reach new
  next : {s t : Pins} → Reach s → Step s t → Reach t
