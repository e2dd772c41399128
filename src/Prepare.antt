-- ===== src/Prepare.antt =====
-- internal/prepare/retry.go: an operation of a database engine is tried again when its connection
-- drops. An error is what the code reads of it: what `errors.Is` answers, and its text lowered. What
-- each try answers, and when the context is done, are parameters.
pub mod Attempts
pub mod Tests
use treeman.Prelude.{
  ℕ, zero, suc, ◌+◌, min, Bool, true, false, ◌&&◌, ◌||◌, not, List, [], ◌∷◌, Option, none, some,
  ◌==◌, leb, if◌then◌else◌,
}
use treeman.Prelude.Text.{Bytes, codes}

pub record Error : Type 0 where
  -- `context.Canceled` or `context.DeadlineExceeded`.
  pub cancelled : Bool
  -- `io.EOF` or `io.ErrUnexpectedEOF`.
  pub at_eof : Bool
  pub text : Bytes

unfoldable pub has_prefix : Bytes → Bytes → Bool
has_prefix [] s = true
has_prefix (c ∷ p) [] = false
has_prefix (c ∷ p) (d ∷ s) = c == d && has_prefix p s

-- `strings.Contains`.
unfoldable pub contains : Bytes → Bytes → Bool
unfolding has_prefix
contains [] sig = has_prefix sig []
contains (c ∷ s) sig = has_prefix sig (c ∷ s) || contains s sig

unfoldable pub contains_any : Bytes → List Bytes → Bool
unfolding contains
contains_any s [] = false
contains_any s (sig ∷ sigs) = contains s sig || contains_any s sigs

abbrev pub signatures : List Bytes
signatures =
    codes "eof"
    ∷ codes "connection closed"
    ∷ codes "connection reset"
    ∷ codes "connection refused"
    ∷ codes "broken pipe"
    ∷ codes "incomplete read"
    ∷ codes "no reachable servers"
    ∷ codes "server selection error"
    ∷ codes "bad connection"
    ∷ codes "i/o timeout"
    ∷ []

-- `isCancellation` and `isTransientConn`.
abbrev pub is_cancellation : Error → Bool
is_cancellation e = e.cancelled

unfoldable pub is_transient_conn : Error → Bool
unfolding contains_any
is_transient_conn e =
    if is_cancellation e then false else if e.at_eof then true else contains_any e.text signatures

-- `transientRetries`, and `transientBackoff` in milliseconds.
abbrev pub transient_retries : ℕ
transient_retries = 3

unfoldable pub transient_backoff : ℕ → ℕ
transient_backoff zero = 250
transient_backoff (suc zero) = 1000
transient_backoff (suc (suc n)) = 2000

-- What a call ends with: success, the error of the last try, that error with the hint of
-- `annotateEngineDeath`, or the error of the context.
pub data End : Type 0 where
  ok : End
  failed : Error → End
  dead : Error → End
  stopped : End

-- The end, how many tries there were, and how long the waits were.
abbrev pub Run : Type 0
Run = End × ℕ × ℕ

-- `outcome` is what a try answers; the context may be done before a try, or during the wait after it.
module _ (outcome : ℕ → Option Error) (done_before done_after : ℕ → Bool) where
  -- The error of a try, and the run that goes on after it.
  abbrev pub after_error : ℕ → ℕ → Error → Option Run → Option Run
  after_error attempt waited e rest =
      if is_cancellation e || not (is_transient_conn e)
      then some (failed e, suc attempt, waited)
      else if leb transient_retries attempt
      then some (dead e, suc attempt, waited)
      else if done_after attempt
      then some (stopped, suc attempt, waited)
      else rest

  abbrev pub after_try : ℕ → ℕ → Option Error → Option Run → Option Run
  after_try attempt waited none rest = some (ok, suc attempt, waited)
  after_try attempt waited (some e) rest = after_error attempt waited e rest

  -- The loop, on fuel.
  unfoldable pub retry_loop : ℕ → ℕ → ℕ → Option Run
  unfolding is_transient_conn transient_backoff
  retry_loop zero attempt waited = none
  retry_loop (suc fuel) attempt waited =
      let rest = retry_loop fuel (suc attempt) (waited + transient_backoff (min attempt 2)) in
      if done_before attempt
      then some (stopped, attempt, waited)
      else after_try attempt waited (outcome attempt) rest

  -- `retryTransient`.
  unfoldable pub retry_transient : Option Run
  unfolding retry_loop
  retry_transient = retry_loop (suc transient_retries) 0 0
