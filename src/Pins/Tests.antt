-- ===== src/Pins/Tests.antt =====
-- Pins that are taken and released.
use treeman.Prelude.{true, ◌<◌, ◌≡◌, ◌↔◌, refl, arith}
use treeman.Prelude.Text.{codes, bytes_eq}
use treeman.Prelude.Map.{lookup, insert, delete, bytes_key}
use treeman.Pins.{
  Pins, new, pin, unpin, release, release_handle, set_released, is_pinned, count_of, Reach, start,
  next, pins, releases,
}
use treeman.Pins.Counts.{outstanding, is_pinned_iff}

-- Two pins on one snapshot; the first is released twice.
twice_released : Pins
unfolding pin release
twice_released = release 0 (release 0 (pin (codes "a") (pin (codes "a") new)))

twice_released-Reach : Reach twice_released
unfolding twice_released
twice_released-Reach =
    next (next (next (next start (pins (codes "a") new)) (pins (codes "a") _)) (releases 0 _))
      (releases 0 _)

still_pinned : is_pinned twice_released.counts (codes "a") ≡ true
unfolding twice_released pin release unpin release_handle set_released is_pinned count_of lookup
    insert delete bytes_eq new
still_pinned = refl

is_pinned_iff_example :
    (is_pinned twice_released.counts (codes "a") ≡ true)
    ↔ (0 < outstanding (codes "a") twice_released.handles)
is_pinned_iff_example =
    is_pinned_iff twice_released (codes "a") twice_released-Reach (λ e. ground (arith, e))
