-- ===== src/Slug/Redis/Tests.antt =====
-- Runs of the checksum and of the Redis indices.
use treeman.Prelude.{pos, ℕ, ◌≡◌, ◌≤◌, ◌↔◌, refl, some, arith}
use treeman.Prelude.Text.{codes}
use treeman.Slug.{Slug, source_path_hash}
use treeman.Slug.Redis.{
  crc_length, crc_bytes, sysv_cksum, redis_indices, default_range, set_redis_db_range, pinned,
  inverted,
}
use treeman.Slug.Redis.Window.{IsRange, redis_indices_in_window, set_redis_db_range_iff}

abbrev sample : Slug
sample = record { value = codes "proj_1234_0a1b2c3d"; source = source_path_hash }

-- `printf 123456789 | cksum`.
posix_check_value : sysv_cksum (codes "123456789") ≡ some 930766865
unfolding sysv_cksum crc_length crc_bytes
posix_check_value = refl

empty_check_value : sysv_cksum (codes "") ≡ some 4294967295
unfolding sysv_cksum crc_length crc_bytes
empty_check_value = refl

refuses_inverted : set_redis_db_range (pos 3) (pos 2) ≡ inverted
unfolding set_redis_db_range
refuses_inverted = refl

default_range-IsRange : IsRange default_range
unfolding default_range
default_range-IsRange = omega arith

redis_indices_in_window_example :
    (q c : ℕ) × (redis_indices default_range sample ≡ some (q, c))
    × (default_range.lo ≤ q)
    × (q ≤ default_range.hi)
    × (default_range.lo ≤ c)
    × (c ≤ default_range.hi)
redis_indices_in_window_example =
    redis_indices_in_window default_range sample default_range-IsRange (omega arith)

set_redis_db_range_iff_example :
    (set_redis_db_range (pos 0) (pos 0) ≡ pinned (record { lo = 0; hi = 0 }))
    ↔ (IsRange (record { lo = 0; hi = 0 }) × (pos 0 ≡ pos 0) × (pos 0 ≡ pos 0))
set_redis_db_range_iff_example = set_redis_db_range_iff (pos 0) (pos 0) (record { lo = 0; hi = 0 })
