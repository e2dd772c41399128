-- ===== src/Watcher/Queued.antt =====
-- What is queued while the timer does not fire.
use treeman.Prelude.{
  Bool, true, false, ◌&&◌, ◌||◌, not, List, [], ◌∷◌, Option, none, some, if◌then◌else◌, ◌≡◌, refl,
  sym, ap, ◌∙◌, arith, Bool-cases, inl, inr,
}
use treeman.Prelude.Text.{Bytes, bytes_eq, bytes_eq_iff, member}
use treeman.Prelude.Map.{lookup, insert, bytes_key, Distinct, Distinct-insert, lookup-insert}
use treeman.Watcher.{Event, WatcherPath, classify, is_empty, event_at, enqueue, enqueue_all}
use treeman.Watcher.Sorting.{Keyed}

abbrev pub some_pending : List (Bytes × Event) → Bool
some_pending [] = false
some_pending (x ∷ m) = true

module _ (rel : Bytes → Option Bytes) (path_match : Bytes → Bytes → Bool) (repo : Bytes)
    (paths : List WatcherPath) where
  -- A database has an input that covers the path.
  unfoldable pub covered : Bytes → Bool
  covered p = not (is_empty rel path_match repo paths (classify rel path_match repo paths p))

  -- What is pending, for the events of the paths that `saw` accepts.
  pub record Queued (saw : Bytes → Bool) (m : List (Bytes × Event)) : Type 0 where
    pub keyed : Keyed m
    pub distinct : Distinct m
    pub each :
        (p : Bytes)
        → lookup p m
          ≡ (if saw p && covered p then some (event_at rel path_match repo paths p) else none)

  pub Queued-same :
      (f g : Bytes → Bool) (m : List (Bytes × Event))
      → ((p : Bytes) → f p ≡ g p)
      → Queued f m
      → Queued g m
  Queued-same f g m e h = record {
    keyed = h.keyed;
    distinct = h.distinct;
    each = λ p.
        h.each p
        ∙ ap (λ b. if b && covered p then some (event_at rel path_match repo paths p) else none)
            (e p);
  }

  insert-Keyed :
      (q : Bytes) (m : List (Bytes × Event))
      → Keyed m
      → Keyed (insert q (event_at rel path_match repo paths q) m)
  unfolding insert
  insert-Keyed q [] k = (refl, tt)
  insert-Keyed q ((p, e) ∷ m) (f, k) = elim (Bool-cases (bytes_eq q p)) [
    | inl y ↦ rw y (refl, k)
    | inr y ↦ rw y (f, insert-Keyed q m k)
  ]

  pub enqueue-Queued :
      (saw : Bytes → Bool) (q : Bytes) (m : List (Bytes × Event))
      → Queued saw m
      → Queued (λ p. bytes_eq p q || saw p) (enqueue rel path_match repo paths q m).1
  unfolding enqueue covered
  enqueue-Queued saw q m h =
      elim (Bool-cases
        (is_empty rel path_match repo paths (classify rel path_match repo paths q))) [
          | inl e ↦ rw e (record {
            keyed = h.keyed;
            distinct = h.distinct;
            each = λ p.
                h.each p
                ∙ ap (λ b. if b then some (event_at rel path_match repo paths p) else none)
                    (uncovered p e);
          })
          | inr e ↦ rw e (record {
            keyed = insert-Keyed q m h.keyed;
            distinct = Distinct-insert q _ m h.distinct;
            each = λ p. lookup-insert p q _ m ∙ queued p e;
          })
        ]
    where
      at : Bytes → Option Event
      at p = some (event_at rel path_match repo paths p)

      same : (p : Bytes) → bytes_eq p q ≡ true → p ≡ q
      same p y = (bytes_eq_iff p q).0 y

      uncovered :
          (p : Bytes)
          → is_empty rel path_match repo paths (classify rel path_match repo paths q) ≡ true
          → (saw p && covered p) ≡ ((bytes_eq p q || saw p) && covered p)
      uncovered p e = elim (Bool-cases (bytes_eq p q)) [
        | inl y ↦
            (let c : covered p ≡ false = ap covered (same p y) ∙ ap not e in ground (arith, c))
        | inr y ↦ ground (arith, y)
      ]

      queued :
          (p : Bytes)
          → is_empty rel path_match repo paths (classify rel path_match repo paths q) ≡ false
          → (if bytes_eq p q then at q else lookup p m)
            ≡ (if (bytes_eq p q || saw p) && covered p then at p else none)
      queued p e = elim (Bool-cases (bytes_eq p q)) [
        | inl y ↦
            (let c : covered p ≡ true = ap covered (same p y) ∙ ap not e in
              rw y (ap at (sym (same p y)) ∙ sym (ap (λ b. if b then at p else none) c)))
        | inr y ↦ rw y (h.each p)
      ]

  pub enqueue_all-Queued :
      (saw : Bytes → Bool) (fs : List Bytes) (b : Bool) (m : List (Bytes × Event))
      → Queued saw m
      → Queued (λ p. member p fs || saw p) (enqueue_all rel path_match repo paths fs (b, m)).1
  unfolding enqueue_all member
  enqueue_all-Queued saw [] b m h = h
  enqueue_all-Queued saw (f ∷ fs) b m h =
      Queued-same _ _ _ (λ p. order (bytes_eq p f) (member p fs) (saw p))
        (enqueue_all-Queued (λ p. bytes_eq p f || saw p) fs _ _ (enqueue-Queued saw f m h))
    where
      order : (a b c : Bool) → (b || (a || c)) ≡ ((a || b) || c)
      order a b c = ground arith

  -- A path was queued or something was pending: something is pending.
  pub enqueue-some :
      (q : Bytes) (m : List (Bytes × Event))
      → (let x = enqueue rel path_match repo paths q m in
          (x.0 || some_pending m) ≡ some_pending x.1)
  unfolding enqueue insert
  enqueue-some q m =
      elim (Bool-cases
        (is_empty rel path_match repo paths (classify rel path_match repo paths q))) [
          | inl e ↦ rw e refl
          | inr e ↦ rw e (inserted m)
        ]
    where
      inserted :
          (m : List (Bytes × Event))
          → true ≡ some_pending (insert q (event_at rel path_match repo paths q) m)
      inserted [] = refl
      inserted ((p, e) ∷ m) = elim (Bool-cases (bytes_eq q p)) [
        | inl y ↦ rw y refl
        | inr y ↦ rw y refl
      ]

  pub enqueue_all-some :
      (fs : List Bytes) (b a : Bool) (m : List (Bytes × Event))
      → (b || a) ≡ some_pending m
      → (let x = enqueue_all rel path_match repo paths fs (b, m) in (x.0 || a) ≡ some_pending x.1)
  unfolding enqueue_all
  enqueue_all-some [] b a m h = h
  enqueue_all-some (f ∷ fs) b a m h =
      let (q, n) = enqueue rel path_match repo paths f m in
      enqueue_all-some fs (q || b) a n (reorder q b a ∙ ap (λ c. q || c) h ∙ enqueue-some f m)
    where
      reorder : (q b a : Bool) → ((q || b) || a) ≡ (q || (b || a))
      reorder q b a = ground arith
