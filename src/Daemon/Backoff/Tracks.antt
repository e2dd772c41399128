-- ===== src/Daemon/Backoff/Tracks.antt =====
-- The backoff of a repository, against the outcomes that were recorded.
use treeman.Prelude.{
  ℕ, zero, suc, ◌+◌, ◌-◌, ◌≤◌, ◌<◌, min, Bool, true, false, List, [], ◌∷◌, Option, none, some, ◌==◌,
  if◌then◌else◌, get_elem?, ◌≡◌, refl, sym, ap, ◌∙◌, arith, Bool-cases, inl, inr,
}
use treeman.Prelude.Text.{Bytes, bytes_eq, bytes_eq_iff}
use treeman.Prelude.Map.{lookup, bytes_key, lookup-insert, lookup-delete}
use treeman.Daemon.Backoff.{
  or_zero, schedule, backoff_for, Sync, sync_backoff_until, sync_fail_count, sync_last_fetch,
  record_sync_failure, record_sync_success, Outcome, succeeded, failed, record_outcome,
  record_outcomes,
}

-- The failures of a repository since its last success.
unfoldable pub failures : Bytes → List Outcome → ℕ
failures repo [] = 0
failures repo (succeeded r now ∷ os) = if bytes_eq repo r then 0 else failures repo os
failures repo (failed r delay now ∷ os) =
    if bytes_eq repo r then suc (failures repo os) else failures repo os

-- The delay after its last outcome, if that was a failure.
unfoldable pub backed_off : Bytes → List Outcome → Option ℕ
backed_off repo [] = none
backed_off repo (succeeded r now ∷ os) = if bytes_eq repo r then none else backed_off repo os
backed_off repo (failed r delay now ∷ os) =
    if bytes_eq repo r then some (now + delay) else backed_off repo os

-- Its last success.
unfoldable pub last_success : Bytes → List Outcome → Option ℕ
last_success repo [] = none
last_success repo (succeeded r now ∷ os) =
    if bytes_eq repo r then some now else last_success repo os
last_success repo (failed r delay now ∷ os) = last_success repo os

-- What the state says of the repository.
pub record Tracks (repo : Bytes) (os : List Outcome) (s : Sync) : Type 0 where
  pub count : sync_fail_count repo s ≡ failures repo os
  pub until : sync_backoff_until repo s ≡ backed_off repo os
  pub success : sync_last_fetch repo s ≡ last_success repo os

if_zero :
    (b : Bool) (n : ℕ) (o : Option ℕ)
    → or_zero (if b then some n else o) ≡ (if b then n else or_zero o)
if_zero true n o = refl
if_zero false n o = refl

if_none : (b : Bool) (o : Option ℕ) → or_zero (if b then none else o) ≡ (if b then 0 else or_zero o)
if_none true o = refl
if_none false o = refl

-- Whatever outcomes are recorded for the repositories, with whatever delays and in whatever order,
-- `SyncFailCount` returns the failures of a repository since its last success, `SyncBackoffUntil`
-- the time of its last outcome plus its delay, if that was a failure, and the zero time if it was a
-- success, and `SyncLastFetch` the time of its last success.
pub record_outcomes-Tracks :
    (repo : Bytes) (os : List Outcome) → Tracks repo os (record_outcomes os)
unfolding record_outcomes record_outcome record_sync_success record_sync_failure sync_fail_count
    sync_backoff_until sync_last_fetch failures backed_off last_success lookup
record_outcomes-Tracks repo [] = record { count = refl; until = refl; success = refl }
record_outcomes-Tracks repo (succeeded r now ∷ os) =
    let s = record_outcomes os in
    let h = record_outcomes-Tracks repo os in
    record {
      count =
          ap or_zero (lookup-delete repo r s.fail_count)
          ∙ if_none (bytes_eq repo r) _
          ∙ ap (λ n. if bytes_eq repo r then 0 else n) h.count;
      until =
          lookup-delete repo r s.backoff ∙ ap (λ o. if bytes_eq repo r then none else o) h.until;
      success =
          lookup-insert repo r now s.last_fetch
          ∙ ap (λ o. if bytes_eq repo r then some now else o) h.success;
    }
record_outcomes-Tracks repo (failed r delay now ∷ os) =
    let s = record_outcomes os in
    let h = record_outcomes-Tracks repo os in
    record {
      count =
          ap or_zero (lookup-insert repo r (suc (sync_fail_count r s)) s.fail_count)
          ∙ if_zero (bytes_eq repo r) _ _
          ∙ counted (record_outcomes-Tracks r os).count h.count;
      until =
          lookup-insert repo r (now + delay) s.backoff
          ∙ ap (λ o. if bytes_eq repo r then some (now + delay) else o) h.until;
      success = h.success;
    }
  where
    same : {m : ℕ} → m ≡ failures r os → bytes_eq repo r ≡ true → m ≡ failures repo os
    same g e = g ∙ ap (λ x. failures x os) (sym ((bytes_eq_iff repo r).0 e))

    counted :
        {m n : ℕ}
        → m ≡ failures r os
        → n ≡ failures repo os
        → (if bytes_eq repo r then suc m else n)
          ≡ (if bytes_eq repo r then suc (failures repo os) else failures repo os)
    counted g h = elim (Bool-cases (bytes_eq repo r)) [
      | inl e ↦ rw e (ap suc (same g e))
      | inr e ↦ rw e h
    ]

-- The schedule ends at an hour.
capped : (n : ℕ) → 6 ≤ n → backoff_for n ≡ 3600
unfolding backoff_for
capped n h =
    let z : (n == 0) ≡ false = ground (arith, h) in
    let m : min (n - 1) 5 ≡ 5 = omega (arith, h) in
    ap (λ b. if b then 0 else or_zero (get_elem? schedule (min (n - 1) 5))) z
    ∙ ap (λ k. or_zero (get_elem? schedule k)) m

-- No delay and one of a minute, delays that grow up to the sixth failure, and an hour from there on.
pub record Escalates (delay : ℕ → ℕ) : Type 0 where
  pub none_yet : delay 0 ≡ 0
  pub first : delay 1 ≡ 60
  pub grows : (n : ℕ) → n < 6 → delay n < delay (suc n)
  pub tops : (n : ℕ) → 6 ≤ n → delay n ≡ 3600

-- `backoffFor` is nothing without a failure and a minute after the first one, grows with each
-- failure up to the sixth, and is an hour from the sixth on.
pub backoff_for-Escalates : Escalates backoff_for
unfolding backoff_for
backoff_for-Escalates = record { none_yet = refl; first = refl; grows = up; tops = capped }
  where
    up : (n : ℕ) → n < 6 → backoff_for n < backoff_for (suc n)
    up zero h = omega arith
    up (suc zero) h = omega arith
    up (suc (suc zero)) h = omega arith
    up (suc (suc (suc zero))) h = omega arith
    up (suc (suc (suc (suc zero)))) h = omega arith
    up (suc (suc (suc (suc (suc zero))))) h = omega arith
    up (suc (suc (suc (suc (suc (suc n)))))) h = absurd (omega arith)
