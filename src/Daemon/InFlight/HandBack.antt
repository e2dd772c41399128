-- ===== src/Daemon/InFlight/HandBack.antt =====
-- No re-prepare is lost: what the release of a finalize hands back, whatever other goroutines did
-- since the claim.
use treeman.Prelude.{
  ℕ, Bool, true, false, List, [], ◌∷◌, Option, none, some, if◌then◌else◌, ◌≡◌, refl, arith,
  Bool-cases, inl, inr, ap, All,
}
use treeman.Prelude.Text.{Bytes, bytes_eq, bytes_eq_iff}
use treeman.Prelude.Map.{lookup, bytes_key, lookup-insert, lookup-delete, beq_refl}
use treeman.Daemon.InFlight.{
  Entry, fresh, InFlight, is_there, queue_watch, add_watch, sorted_reruns, mark_finalize,
  mark_finalize_or_queue, queue_on, unmark_finalize, handed_back, cancel_finalize, cancel_on,
  is_finalize_in_flight,
}
use treeman.Daemon.InFlight.Queue.{
  Request, watch, head, queue, queue_all, Answers, handed_back-Answers,
}

-- What goroutines do to the finalizes.
pub data Act : Type 0 where
  claim : ℕ → Bytes → Act
  request : ℕ → Bytes → Request → Act
  cancel : Bytes → Act
  unmark : Bytes → Act

unfoldable pub act : Act → InFlight → InFlight
unfolding mark_finalize mark_finalize_or_queue queue cancel_finalize unmark_finalize
act (claim now p) s = (mark_finalize now p s).1
act (request now p q) s = (mark_finalize_or_queue now p (queue q) s).1
act (cancel p) s = (cancel_finalize p s).1
act (unmark p) s = (unmark_finalize p s).1

-- From the latest on.
unfoldable pub acts : List Act → InFlight → InFlight
unfolding act
acts [] s = s
acts (a ∷ past) s = act a (acts past s)

abbrev add_if : Bool → Request → List Request → List Request
add_if b q qs = if b then q ∷ qs else qs

-- The requests on a path among what was done.
unfoldable pub requests_on : Bytes → List Act → List Request
unfolding bytes_eq
requests_on p [] = []
requests_on p (claim now r ∷ past) = requests_on p past
requests_on p (request now r q ∷ past) = add_if (bytes_eq p r) q (requests_on p past)
requests_on p (cancel r ∷ past) = requests_on p past
requests_on p (unmark r ∷ past) = requests_on p past

-- Only who claimed the path unmarks it.
abbrev pub Leaves : Bytes → Act → Type 0
Leaves p (unmark r) = bytes_eq p r ≡ false
Leaves p (claim now r) = Unit {0}
Leaves p (request now r q) = Unit {0}
Leaves p (cancel r) = Unit {0}

abbrev change : Bytes → Act → Entry → Entry
unfolding bytes_eq queue
change p (claim now r) x = x
change p (request now r q) x = if bytes_eq p r then queue q x else x
change p (cancel r) x = if bytes_eq p r then record x { cancelled = true } else x
change p (unmark r) x = x

request-entry :
    (p : Bytes) (now : ℕ) (r : Bytes) (q : Request) (s : InFlight) (x : Entry)
    → lookup p s.finalizes ≡ some x
    → (o : Option Entry) → lookup r s.finalizes ≡ o
    → lookup p (queue_on now r (queue q) s o).1.finalizes
      ≡ some (if bytes_eq p r then queue q x else x)
unfolding queue_on
request-entry p now r q s x h none e =
    ground (arith, lookup-insert p r (fresh now) s.finalizes, bytes_eq_iff p r)
request-entry p now r q s x h (some y) e =
    ground (arith, lookup-insert p r (queue q y) s.finalizes, bytes_eq_iff p r)

cancel-entry :
    (p r : Bytes) (s : InFlight) (x : Entry)
    → lookup p s.finalizes ≡ some x
    → (o : Option Entry) → lookup r s.finalizes ≡ o
    → lookup p (cancel_on r s o).1.finalizes
      ≡ some (if bytes_eq p r then record x { cancelled = true } else x)
unfolding cancel_on
cancel-entry p r s x h none e = ground (arith, bytes_eq_iff p r)
cancel-entry p r s x h (some y) e =
    ground (arith, lookup-insert p r (record y { cancelled = true }) s.finalizes, bytes_eq_iff p r)

-- One act of any goroutine, on a path that is in flight.
act-entry :
    (p : Bytes) (a : Act) (s : InFlight) (x : Entry)
    → Leaves p a
    → lookup p s.finalizes ≡ some x
    → lookup p (act a s).finalizes ≡ some (change p a x)
unfolding act change mark_finalize mark_finalize_or_queue queue_on cancel_finalize cancel_on
    unmark_finalize
act-entry p (claim now r) s x l h =
    ground (arith, lookup-insert p r (fresh now) s.finalizes, bytes_eq_iff p r)
act-entry p (request now r q) s x l h = request-entry p now r q s x h (lookup r s.finalizes) refl
act-entry p (cancel r) s x l h = cancel-entry p r s x h (lookup r s.finalizes) refl
act-entry p (unmark r) s x l h = ground (arith, lookup-delete p r s.finalizes)

-- Two entries with the same requests.
record Alike (x y : Entry) : Type 0 where
  same_watch : x.watch_reruns ≡ y.watch_reruns
  same_head : x.head_rerun ≡ y.head_rerun

queue-Alike : (q : Request) (x y : Entry) → Alike x y → Alike (queue q x) (queue q y)
unfolding queue queue_watch
queue-Alike (watch r) x y h = record {
  same_watch = ap (add_watch r) h.same_watch;
  same_head = h.same_head;
}
queue-Alike (head r) x y h = record { same_watch = h.same_watch; same_head = refl }

change-Alike :
    (now : ℕ) (p : Bytes) (a : Act) (past : List Act) (x : Entry)
    → Alike x (queue_all (requests_on p past) (fresh now))
    → Alike (change p a x) (queue_all (requests_on p (a ∷ past)) (fresh now))
unfolding change requests_on queue_all
change-Alike now p (claim t r) past x h = h
change-Alike now p (request t r q) past x h = elim (Bool-cases (bytes_eq p r)) [
  | inl e ↦ rw e (queue-Alike q x _ h)
  | inr e ↦ rw e h
]
change-Alike now p (cancel r) past x h = elim (Bool-cases (bytes_eq p r)) [
  | inl e ↦ rw e (record { same_watch = h.same_watch; same_head = h.same_head })
  | inr e ↦ rw e h
]
change-Alike now p (unmark r) past x h = h

start-Alike : (now : ℕ) (p : Bytes) → Alike (fresh now) (queue_all (requests_on p []) (fresh now))
unfolding requests_on queue_all
start-Alike now p = record { same_watch = refl; same_head = refl }

acts-entry :
    (now : ℕ) (p : Bytes) (past : List Act) (s : InFlight)
    → All (Leaves p) past
    → lookup p s.finalizes ≡ some (fresh now)
    → (x : Entry) × (lookup p (acts past s).finalizes ≡ some x)
      × Alike x (queue_all (requests_on p past) (fresh now))
unfolding acts
acts-entry now p [] s l h = (fresh now, h, start-Alike now p)
acts-entry now p (a ∷ past) s (la, l) h =
    let (x, e, k) = acts-entry now p past s l h in
    (change p a x, act-entry p a (acts past s) x la e, change-Alike now p a past x k)

mark_finalize-entry :
    (now : ℕ) (p : Bytes) (s : InFlight)
    → is_finalize_in_flight p s ≡ false
    → lookup p (mark_finalize now p s).1.finalizes ≡ some (fresh now)
unfolding mark_finalize is_finalize_in_flight
mark_finalize-entry now p s h =
    ground (arith, lookup-insert p p (fresh now) s.finalizes, beq_refl p)

handed_back-Alike : (x y : Entry) → Alike x y → handed_back (some x) ≡ handed_back (some y)
unfolding handed_back
handed_back-Alike x y h = λ i. record {
  head = h.same_head i;
  watch = if is_there (h.same_head i) then [] else sorted_reruns (h.same_watch i);
}

-- No re-prepare is lost. After a path was claimed, other goroutines may claim, cancel and release any
-- other path and queue requests on any; when the claimant releases the path, it gets back the answer
-- to the requests on it since.
pub unmark_finalize-Answers :
    (now : ℕ) (p : Bytes) (s : InFlight) (past : List Act)
    → is_finalize_in_flight p s ≡ false
    → All (Leaves p) past
    → Answers (requests_on p past) (unmark_finalize p (acts past (mark_finalize now p s).1)).0
unfolding unmark_finalize
unmark_finalize-Answers now p s past f l =
    let (x, e, k) =
      acts-entry now p past (mark_finalize now p s).1 l (mark_finalize-entry now p s f) in
    rw (e, handed_back-Alike x _ k) (handed_back-Answers now (requests_on p past))
