-- ===== src/Prepare/Tests.antt =====
-- Retries of a concrete operation.
use treeman.Prelude.{ℕ, zero, suc, false, Option, none, some, ◌≡◌, refl}
use treeman.Prelude.Text.{codes}
use treeman.Prepare.{Error, contains, ok, dead, retry_transient}
use treeman.Prepare.Attempts.{Retried, retry_transient-Retried}

abbrev reset : Error
reset = record { cancelled = false; at_eof = false; text = codes "read: connection reset by peer" }

-- Two drops, then success.
abbrev restarts : ℕ → Option Error
restarts zero = some reset
restarts (suc zero) = some reset
restarts (suc (suc n)) = none

retry_transient-Retried_example :
    Retried restarts (λ n. false) (λ n. false) (retry_transient restarts (λ n. false) (λ n. false))
retry_transient-Retried_example = retry_transient-Retried restarts (λ n. false) (λ n. false)

third_try : retry_transient restarts (λ n. false) (λ n. false) ≡ some (ok, 3, 1250)
unfolding retry_transient contains
third_try = refl

given_up : retry_transient (λ n. some reset) (λ n. false) (λ n. false) ≡ some (dead reset, 4, 3250)
unfolding retry_transient contains
given_up = refl
