-- ===== src/Slug/Redis/Window.antt =====
-- The Redis indices of a slug: the checksum loop ends, and both indices lie in the window.
use Prim.Native.Nat.{bit_xor}
use treeman.Prelude.{
  ℤ, pos, negsuc, ℕ, zero, suc, ◌+◌, ◌-◌, ◌/◌, ◌%◌, ◌^◌, ◌<◌, ◌≤◌, some, ◌==◌, length, ◌≡◌, ◌↔◌,
  arith, inl, inr, Bool-cases,
}
use treeman.Prelude.Text.{Bytes}
use treeman.Slug.{Slug}
use treeman.Slug.Redis.{
  crc_length, crc_bytes, crc_update, sysv_cksum, Range, pinned, set_redis_db_range, indices_of,
  redis_indices,
}

-- The ranges that a Redis server can have.
pub record IsRange (r : Range) : Type 0 where
  pub ordered : r.lo ≤ r.hi
  pub in_space : r.hi ≤ 15

crc_length-some : (f n crc : ℕ) → n < 256 ^ f → (c : ℕ) × (crc_length (suc f) n crc ≡ some c)
unfolding crc_length
crc_length-some zero n crc h = (crc, ground (arith, h))
crc_length-some (suc f) n crc h = elim (Bool-cases (n == 0)) [
  | inl e ↦ (crc, rw e)
  | inr e ↦
      let (c, p) = crc_length-some f (n / 256) (crc_update crc (n % 256)) (omega arith) in
      (c, rw e p)
]

-- `SetRedisDBRange` pins exactly the ranges that lie in 0..15 with the lower end first.
pub set_redis_db_range_iff :
    (a b : ℤ) (r : Range)
    → (set_redis_db_range a b ≡ pinned r) ↔ (IsRange r × (a ≡ pos r.lo) × (b ≡ pos r.hi))
unfolding set_redis_db_range
set_redis_db_range_iff (negsuc a) b r = (λ h. absurd (ground arith), λ h. absurd (ground arith))
set_redis_db_range_iff (pos lo) (negsuc b) r =
    (λ h. absurd (ground arith), λ h. absurd (ground arith))
set_redis_db_range_iff (pos lo) (pos hi) r = ground arith

-- With the length below 2^64 the checksum loop ends within its fuel.
pub sysv_cksum-some : (s : Bytes) → length s < 2 ^ 64 → (c : ℕ) × (sysv_cksum s ≡ some c)
unfolding sysv_cksum
sysv_cksum-some s h =
    let (c, p) = crc_length-some 8 (length s) (crc_bytes 0 s) h in
    (bit_xor c 0xFFFF_FFFF, rw (p, sysv_cksum))

-- One index: a remainder by the width of the window, moved to its lower end.
index_bounds :
    (lo hi h : ℕ)
    → lo ≤ hi
    → hi ≤ 15
    → let i = (h % ((hi + 256 - lo) % 256 + 1) + lo) % 256 in (lo ≤ i) × (i ≤ hi)
index_bounds lo hi h o s =
    let span-eq : (hi + 256 - lo) % 256 + 1 ≡ hi - lo + 1 = omega arith in
    rw span-eq (bounds (h % (hi - lo + 1)) (grind arith))
  where
    bounds : (m : ℕ) → m < hi - lo + 1 → (lo ≤ (m + lo) % 256) × ((m + lo) % 256 ≤ hi)
    bounds m l = (omega arith, omega arith)

-- Every slug shorter than 2^64 bytes has its two indices, and both lie in the window.
pub redis_indices_in_window :
    (r : Range) (s : Slug)
    → IsRange r
    → length s.value < 2 ^ 64
    → (q c : ℕ) × (redis_indices r s ≡ some (q, c))
      × (r.lo ≤ q)
      × (q ≤ r.hi)
      × (r.lo ≤ c)
      × (c ≤ r.hi)
unfolding redis_indices indices_of
redis_indices_in_window r s v l =
    let (h, p) = sysv_cksum-some s.value l in
    let (a, b) = index_bounds r.lo r.hi h v.ordered v.in_space in
    let (c, d) = index_bounds r.lo r.hi (h / 10) v.ordered v.in_space in
    ((indices_of r h).0, (indices_of r h).1, rw (p, redis_indices), a, b, c, d)
