-- ===== src/Watcher/Burst.antt =====
-- A burst of events, until the timer fires: what is dispatched.
use treeman.Prelude.{
  Bool, true, false, ◌&&◌, ◌||◌, List, [], ◌∷◌, Option, none, some, if◌then◌else◌, ◌≡◌, refl, ap,
  ◌∙◌, arith, Bool-cases, inl, inr,
}
use treeman.Prelude.Text.{Bytes, bytes_eq, member, before}
use treeman.Prelude.Map.{lookup, bytes_key}
use treeman.Watcher.{
  insert_event, sorted_events, Event, WatcherPath, Input, event, failure, tick, Loop, idle,
  event_at, enqueue, flush, turn, run,
}
use treeman.Watcher.Sorting.{Sorted, event_for, event_for-sorted, sorted_events-Sorted}
use treeman.Watcher.Queued.{
  some_pending, covered, Queued, Queued-same, enqueue-Queued, enqueue_all-Queued, enqueue-some,
  enqueue_all-some,
}

-- A path of the inputs: of an event, or of a file below a directory that was created.
unfoldable pub seen : Bytes → List Input → Bool
seen p [] = false
seen p (event q files ∷ is) = bytes_eq p q || member p files || seen p is
seen p (failure ∷ is) = seen p is
seen p (tick ∷ is) = seen p is

-- The timer does not fire.
unfoldable pub no_tick : List Input → Bool
no_tick [] = true
no_tick (event q files ∷ is) = no_tick is
no_tick (failure ∷ is) = no_tick is
no_tick (tick ∷ is) = false

abbrev pub some_event : List Event → Bool
some_event [] = false
some_event (e ∷ es) = true

module _ (rel : Bytes → Option Bytes) (path_match : Bytes → Bytes → Bool) (repo : Bytes)
    (paths : List WatcherPath) where
  -- The loop, while the timer does not fire: nothing is dispatched, what is seen is pending, and the
  -- timer is armed when something is.
  record Running (saw : Bytes → Bool) (x : Loop × List Event) : Type 0 where
    queued : Queued rel path_match repo paths saw x.0.pending
    armed : x.0.armed ≡ some_pending x.0.pending
    quiet : x.1 ≡ []

  turn-Running :
      (saw : Bytes → Bool) (q : Bytes) (files : List Bytes) (l : Loop)
      → Queued rel path_match repo paths saw l.pending
      → l.armed ≡ some_pending l.pending
      → Running
          (λ p. (bytes_eq p q || member p files) || saw p)
          (turn rel path_match repo paths (event q files) l)
  unfolding turn
  turn-Running saw q files l h a = record {
    queued =
        Queued-same rel path_match repo paths _ _ _
          (λ p. order (bytes_eq p q) (member p files) (saw p))
          (enqueue_all-Queued rel path_match repo paths _ files _ _
            (enqueue-Queued rel path_match repo paths saw q l.pending h));
    armed = enqueue_all-some rel path_match repo paths files _ l.armed _ (
        ap (λ c. (enqueue rel path_match repo paths q l.pending).0 || c) a
        ∙ enqueue-some rel path_match repo paths q l.pending);
    quiet = refl;
  }
    where
      order : (a b c : Bool) → (b || (a || c)) ≡ ((a || b) || c)
      order a b c = ground arith

  run-Running :
      (saw : Bytes → Bool) (is : List Input) (l : Loop)
      → no_tick is ≡ true
      → Queued rel path_match repo paths saw l.pending
      → l.armed ≡ some_pending l.pending
      → Running (λ p. seen p is || saw p) (run rel path_match repo paths is l)
  unfolding run seen no_tick
  run-Running saw [] l n h a = record { queued = h; armed = a; quiet = refl }
  run-Running saw (failure ∷ is) l n h a = run-Running saw is l n h a
  run-Running saw (tick ∷ is) l n h a = absurd (ground arith)
  run-Running saw (event q files ∷ is) l n h a =
      let t = turn-Running saw q files l h a in
      let r =
        run-Running (λ p. (bytes_eq p q || member p files) || saw p) is _ n t.queued t.armed in
      record {
        queued =
            Queued-same rel path_match repo paths _ _ _
              (λ p. order (seen p is) (bytes_eq p q || member p files) (saw p)) r.queued;
        armed = r.armed;
        quiet = r.quiet;
      }
    where
      order : (a b c : Bool) → (a || (b || c)) ≡ ((b || a) || c)
      order a b c = ground arith

  -- What a flush dispatches, once for each path.
  pub record Dispatched (saw : Bytes → Bool) (es : List Event) : Type 0 where
    pub each :
        (p : Bytes)
        → event_for p es ≡ (
            if saw p && covered rel path_match repo paths p
            then some (event_at rel path_match repo paths p)
            else none)
    pub sorted : Sorted es

  some_event-sorted : (m : List (Bytes × Event)) → some_pending m ≡ some_event (sorted_events m)
  unfolding sorted_events
  some_event-sorted [] = refl
  some_event-sorted ((p, e) ∷ m) = inserted (sorted_events m)
    where
      inserted : (es : List Event) → true ≡ some_event (insert_event e es)
      inserted [] = refl
      inserted (x ∷ es) = elim (Bool-cases (before x.path e.path)) [
        | inl b ↦ rw b refl
        | inr b ↦ rw b refl
      ]

  -- From the idle loop, a burst of events before the timer fires dispatches nothing, and arms the
  -- timer exactly if there is something to dispatch; when it fires, every path that the burst named
  -- and an input covers is dispatched, once, in the order of the paths, with its matches, nothing
  -- else is, and the loop is idle again.
  pub burst-Dispatched :
      (is : List Input)
      → no_tick is ≡ true
      → (let x = run rel path_match repo paths is idle in
          let y = turn rel path_match repo paths tick x.0 in
          (x.1 ≡ [])
          × (x.0.armed ≡ some_event y.1)
          × (y.0 ≡ idle)
          × Dispatched (λ p. seen p is) y.1)
  unfolding turn flush lookup
  burst-Dispatched is n =
      let r = run-Running (λ p. false) is idle n start refl in
      let m = (run rel path_match repo paths is idle).0.pending in
      (
        r.quiet,
        r.armed ∙ some_event-sorted m,
        refl,
        record {
          each = λ p.
              event_for-sorted p m r.queued.keyed
              ∙ r.queued.each p
              ∙ ap
                  (λ b.
                    if b && covered rel path_match repo paths p
                    then some (event_at rel path_match repo paths p)
                    else none)
                  (only (seen p is));
          sorted = sorted_events-Sorted m r.queued.keyed r.queued.distinct;
        },
      )
    where
      start : Queued rel path_match repo paths (λ p. false) []
      start = record { keyed = tt; distinct = tt; each = λ p. nothing p }
        where
          nothing :
              (p : Bytes)
              → lookup p [] ≡ (
                  if false && covered rel path_match repo paths p
                  then some (event_at rel path_match repo paths p)
                  else none)
          nothing p = refl

      only : (b : Bool) → (b || false) ≡ b
      only b = ground arith
