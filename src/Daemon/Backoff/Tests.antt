-- ===== src/Daemon/Backoff/Tests.antt =====
-- The backoff of concrete fetches.
use treeman.Prelude.{ℕ, Option, List, [], ◌∷◌, some, ◌≡◌, refl}
use treeman.Prelude.Text.{codes, bytes_eq}
use treeman.Daemon.Backoff.{
  Outcome, succeeded, failed, record_outcomes, sync_backoff_until, backoff_for, sync_fail_count,
}
use treeman.Daemon.Backoff.Tracks.{Tracks, record_outcomes-Tracks}

-- The latest outcome comes first. The two last failures were computed from the same count.
abbrev outcomes : List Outcome
outcomes =
    failed (codes "/r") 60 500
    ∷ succeeded (codes "/s") 450
    ∷ failed (codes "/r") 60 400
    ∷ succeeded (codes "/r") 300
    ∷ failed (codes "/r") 60 200
    ∷ []

record_outcomes-Tracks_example : Tracks (codes "/r") outcomes (record_outcomes outcomes)
record_outcomes-Tracks_example = record_outcomes-Tracks (codes "/r") outcomes

second_failure :
    ◌≡◌ {A = Option ℕ × ℕ}
      (
        sync_backoff_until (codes "/r") (record_outcomes outcomes),
        sync_fail_count (codes "/r") (record_outcomes outcomes),
      )
      (some 560, 2)
unfolding record_outcomes sync_backoff_until sync_fail_count bytes_eq
second_failure = refl

third_delay : backoff_for 3 ≡ 300
unfolding backoff_for
third_delay = refl
