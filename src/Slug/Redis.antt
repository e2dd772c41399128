-- ===== src/Slug/Redis.antt =====
-- internal/slug/slug.go: the POSIX `cksum` of a slug, and the Redis database indices taken from it.
-- A `uint32` or `uint8` is a number with its wrap-around written out.
pub mod Window
pub mod Tests
use Prim.Native.Nat.{bit_and, bit_xor}
use treeman.Prelude.{
  ℤ, pos, negsuc, ℕ, zero, suc, ◌+◌, ◌-◌, ◌*◌, ◌/◌, ◌%◌, ◌^◌, Bool, true, false, ◌||◌, List, [],
  ◌∷◌, Option, none, some, ◌==◌, ltb, if◌then◌else◌, length, ◌≡◌,
}
use treeman.Prelude.Text.{Bytes}
use treeman.Slug.{Slug}

-- One of the eight rounds of `crcUpdate`.
abbrev crc_round : ℕ → ℕ
crc_round crc =
    if bit_and crc 0x8000_0000 == 0
    then crc * 2 % 2 ^ 32
    else bit_xor (crc * 2 % 2 ^ 32) 0x04C1_1DB7

crc_rounds : ℕ → ℕ → ℕ
crc_rounds zero crc = crc
crc_rounds (suc n) crc = crc_rounds n (crc_round crc)

crc_update : ℕ → ℕ → ℕ
unfolding crc_rounds
crc_update crc b = crc_rounds 8 (bit_xor crc (b * 2 ^ 24 % 2 ^ 32))

crc_bytes : ℕ → Bytes → ℕ
unfolding crc_update
crc_bytes crc [] = crc
crc_bytes crc (b ∷ s) = crc_bytes (crc_update crc b) s

-- `for length != 0 { … }`, on fuel; `none` means that the fuel ran out.
crc_length : ℕ → ℕ → ℕ → Option ℕ
unfolding crc_update
crc_length zero length crc = none
crc_length (suc f) length crc =
    let rest = crc_length f (length / 256) (crc_update crc (length % 256)) in
    if length == 0 then some crc else rest

-- `sysvCksum`: a `uint64` length has eight bytes, and the ninth round ends the loop.
pub sysv_cksum : Bytes → Option ℕ
sysv_cksum input = elim (crc_length 9 (length input) (crc_bytes 0 input)) [
  | none ↦ none
  | some crc ↦ some (bit_xor crc 0xFFFF_FFFF)
]

-- `redisDBMin` and `redisDBMax`.
pub record Range : Type 0 where
  pub lo : ℕ
  pub hi : ℕ

pub default_range : Range
default_range = record { lo = 6; hi = 15 }

pub data Outcome : Type 0 where
  pinned : Range → Outcome
  outside_space inverted : Outcome

-- `SetRedisDBRange`: the range that it pins, or which of its two errors it returns.
pub set_redis_db_range : ℤ → ℤ → Outcome
set_redis_db_range (negsuc b) hi = outside_space
set_redis_db_range (pos lo) (negsuc b) = inverted
set_redis_db_range (pos lo) (pos hi) =
    if ltb 15 hi
    then outside_space
    else if ltb hi lo
    then inverted
    else pinned (record { lo = lo; hi = hi })

-- `RedisIndices` of a checksum `h`: `span` is the uint8 difference plus one.
pub indices_of : Range → ℕ → ℕ × ℕ
indices_of r h =
    let span = (r.hi + 256 - r.lo) % 256 + 1 in
    ((h % span + r.lo) % 256, (h / 10 % span + r.lo) % 256)

-- `RedisIndices`.
pub redis_indices : Range → Slug → Option (ℕ × ℕ)
redis_indices r s = elim (sysv_cksum s.value) [ none ↦ none | some h ↦ some (indices_of r h) ]
