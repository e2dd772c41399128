-- ===== src/Daemon/InFlight/Queue.antt =====
-- What a finalize hands back, against the requests that were queued on it.
use treeman.Prelude.{
  ℕ, ℤ, int_eq, int_eq_iff, Bool, true, false, ◌||◌, List, [], ◌∷◌, Option, none, some,
  if◌then◌else◌, ◌≡◌, refl, arith, Bool-cases, inl, inr, ap, ◌∙◌,
}
use treeman.Prelude.Map.{lookup, insert, int_key, lookup-insert}
use treeman.Daemon.InFlight.{
  WatchRerun, HeadRerun, Entry, fresh, QueuedReruns, is_there, every, queue_watch, add_watch,
  queue_head, sorted_reruns, handed_back,
}
use treeman.Daemon.InFlight.Order.{
  rerun_of, Ordered, for_every, every_entry, Keyed, rerun_of-sorted, sorted_reruns-Ordered,
  sorted_every,
}

-- A request that found the finalize in flight.
pub data Request : Type 0 where
  watch : WatchRerun → Request
  head : HeadRerun → Request

unfoldable pub queue : Request → Entry → Entry
unfolding queue_watch
queue (watch r) e = queue_watch r e
queue (head r) e = queue_head r e

-- The requests are listed from the latest on.
unfoldable pub queue_all : List Request → Entry → Entry
unfolding queue
queue_all [] e = e
queue_all (q ∷ qs) e = queue q (queue_all qs e)

-- The latest request of HEAD.
unfoldable pub latest_head : List Request → Option HeadRerun
latest_head [] = none
latest_head (watch r ∷ qs) = latest_head qs
latest_head (head r ∷ qs) = some r

-- The latest watch request, of any database.
unfoldable pub latest_watch : List Request → Option WatchRerun
latest_watch [] = none
latest_watch (watch r ∷ qs) = some r
latest_watch (head r ∷ qs) = latest_watch qs

-- The latest watch request for a database index.
unfoldable pub latest_for : ℤ → List Request → Option WatchRerun
latest_for i [] = none
latest_for i (watch r ∷ qs) = if int_eq i r.db_index then some r else latest_for i qs
latest_for i (head r ∷ qs) = latest_for i qs

-- Some watch request asks for every database.
unfoldable pub asks_every : List Request → Bool
asks_every [] = false
asks_every (watch r ∷ qs) = int_eq r.db_index every || asks_every qs
asks_every (head r ∷ qs) = asks_every qs

-- What is handed back answers the requests: the last one of HEAD, and nothing else if there is one;
-- or else one rerun of every database, as last asked for, if one asked for every database; or else,
-- for each database, the last request, in the order of the indices.
pub record Answers (qs : List Request) (back : QueuedReruns) : Type 0 where
  pub head : back.head ≡ latest_head qs
  pub superseded : is_there (latest_head qs) ≡ true → back.watch ≡ []
  pub every_one :
      is_there (latest_head qs) ≡ false
      → asks_every qs ≡ true
      → back.watch ≡ for_every (latest_watch qs)
  pub each :
      is_there (latest_head qs) ≡ false
      → asks_every qs ≡ false
      → (i : ℤ) → rerun_of i back.watch ≡ latest_for i qs
  pub ordered : Ordered back.watch

-- What an entry holds after the requests.
record Holds (qs : List Request) (e : Entry) : Type 0 where
  latest : e.head_rerun ≡ latest_head qs
  one : asks_every qs ≡ true → e.watch_reruns ≡ every_entry (latest_watch qs)
  many : asks_every qs ≡ false → (i : ℤ) → lookup i e.watch_reruns ≡ latest_for i qs
  keyed : Keyed e.watch_reruns

fresh-Holds : (now : ℕ) → Holds [] (fresh now)
unfolding latest_head asks_every latest_for lookup
fresh-Holds now = record { latest = refl; one = λ h. ground arith; many = λ h i. refl; keyed = tt }

insert-Keyed :
    (r : WatchRerun) (m : List (ℤ × WatchRerun)) → Keyed m → Keyed (insert r.db_index r m)
unfolding insert
insert-Keyed r [] h = (refl, tt)
insert-Keyed r ((i, x) ∷ m) (e, h) = elim (Bool-cases (int_eq r.db_index i)) [
  | inl y ↦ rw y (refl, h)
  | inr n ↦ rw n (e, insert-Keyed r m h)
]

head-Holds :
    (qs : List Request) (r : HeadRerun) (e : Entry)
    → Holds qs e
    → Holds (head r ∷ qs) (queue_head r e)
unfolding latest_head latest_watch latest_for asks_every
head-Holds qs r e h = record { latest = refl; one = h.one; many = h.many; keyed = h.keyed }

asks_every-latest :
    (qs : List Request) → asks_every qs ≡ true → (r : WatchRerun) × (latest_watch qs ≡ some r)
unfolding asks_every latest_watch
asks_every-latest [] h = absurd (ground arith)
asks_every-latest (watch r ∷ qs) h = (r, refl)
asks_every-latest (head r ∷ qs) h = asks_every-latest qs h

asks_every-none : (qs : List Request) → asks_every qs ≡ false → latest_for every qs ≡ none
unfolding asks_every latest_for
asks_every-none [] h = refl
asks_every-none (watch r ∷ qs) h =
    ground (arith, asks_every-none qs, int_eq_iff r.db_index every, int_eq_iff every r.db_index)
asks_every-none (head r ∷ qs) h = asks_every-none qs h

with_every : WatchRerun → WatchRerun
with_every r = record r { db_index = every }

with_every_self : (r : WatchRerun) → r.db_index ≡ every → with_every r ≡ r
unfolding with_every
with_every_self r h = ground arith

-- Once every database is asked for, the one rerun is replaced.
add_watch-every :
    (r x : WatchRerun) → add_watch r ((every, with_every x) ∷ []) ≡ (every, with_every r) ∷ []
unfolding add_watch with_every lookup insert
add_watch-every r x = refl

-- The first request for every database replaces all reruns.
add_watch-first :
    (r : WatchRerun) (m : List (ℤ × WatchRerun))
    → lookup every m ≡ none
    → int_eq r.db_index every ≡ true
    → add_watch r m ≡ (every, with_every r) ∷ []
unfolding add_watch insert
add_watch-first r m h i =
    rw (h, i, with_every_self r ((int_eq_iff r.db_index every).0 i))
      (ap (λ k. (k, r) ∷ []) ((int_eq_iff r.db_index every).0 i))

-- A request for one database.
add_watch-one :
    (r : WatchRerun) (m : List (ℤ × WatchRerun))
    → lookup every m ≡ none
    → int_eq r.db_index every ≡ false
    → add_watch r m ≡ insert r.db_index r m
unfolding add_watch
add_watch-one r m h i = rw (h, i) refl

watch-Holds :
    (qs : List Request) (r : WatchRerun) (e : Entry)
    → Holds qs e
    → Holds (watch r ∷ qs) (queue_watch r e)
unfolding latest_head latest_watch latest_for asks_every with_every queue_watch
watch-Holds qs r e h = elim (Bool-cases (asks_every qs)) [
  | inl a ↦
      (let (x, l) = asks_every-latest qs a in
        let m : add_watch r e.watch_reruns ≡ (every, with_every r) ∷ [] =
          rw (h.one a, l) (add_watch-every r x) in
        record {
          latest = h.latest;
          one = λ _. m;
          many = λ n i. absurd (ground arith);
          keyed = rw m (refl, tt);
        })
  | inr a ↦
      (let free : lookup every e.watch_reruns ≡ none = h.many a every ∙ asks_every-none qs a in
        elim (Bool-cases (int_eq r.db_index every)) [
          | inl i ↦
              (let m = add_watch-first r e.watch_reruns free i in
                record {
                  latest = h.latest;
                  one = λ _. m;
                  many = λ n j. absurd (ground arith);
                  keyed = rw m (refl, tt);
                })
          | inr i ↦
              (let m = add_watch-one r e.watch_reruns free i in
                record {
                  latest = h.latest;
                  one = λ n. absurd (ground arith);
                  many = λ n j. rw m (
                      lookup-insert j r.db_index r e.watch_reruns
                      ∙ ap (λ t. if int_eq j r.db_index then some r else t) (h.many a j));
                  keyed = rw m (insert-Keyed r e.watch_reruns h.keyed);
                })
        ])
]

queue_all-Holds : (now : ℕ) (qs : List Request) → Holds qs (queue_all qs (fresh now))
unfolding queue_all queue
queue_all-Holds now [] = fresh-Holds now
queue_all-Holds now (watch r ∷ qs) = watch-Holds qs r _ (queue_all-Holds now qs)
queue_all-Holds now (head r ∷ qs) = head-Holds qs r _ (queue_all-Holds now qs)

if-Ordered :
    (b : Bool) (x y : List WatchRerun) → Ordered x → Ordered y → Ordered (if b then x else y)
if-Ordered true x y hx hy = hx
if-Ordered false x y hx hy = hy

-- What an entry hands back answers the requests that it holds.
pub handed_back-Answers :
    (now : ℕ) (qs : List Request) → Answers qs (handed_back (some (queue_all qs (fresh now))))
unfolding handed_back
handed_back-Answers now qs =
    let e = queue_all qs (fresh now) in
    let h = queue_all-Holds now qs in
    record {
      head = h.latest;
      superseded = λ t. rw (ap is_there h.latest ∙ t) refl;
      every_one = λ t a. rw (ap is_there h.latest ∙ t, h.one a) (sorted_every (latest_watch qs));
      each = λ t n i.
          rw (ap is_there h.latest ∙ t) (rerun_of-sorted i e.watch_reruns h.keyed ∙ h.many n i);
      ordered =
          if-Ordered (is_there e.head_rerun) [] (sorted_reruns e.watch_reruns) tt
            (sorted_reruns-Ordered e.watch_reruns);
    }
