-- ===== src/Watcher/Sorting.antt =====
-- The events that a flush dispatches, sorted by path.
use treeman.Prelude.{
  true, false, List, [], ◌∷◌, Option, none, some, if◌then◌else◌, All, ◌≡◌, refl, sym, ap, ◌∙◌,
  arith, Bool-cases, inl, inr,
}
use treeman.Prelude.Text.{Bytes, bytes_eq, bytes_eq_iff, before, before_irrefl, before_total}
use treeman.Prelude.Map.{lookup, bytes_key, Distinct}
use treeman.Watcher.{Event, insert_event, sorted_events}

-- The event of a path among those that are dispatched.
unfoldable pub event_for : Bytes → List Event → Option Event
event_for p [] = none
event_for p (e ∷ es) = if bytes_eq p e.path then some e else event_for p es

abbrev From : Bytes → List Event → Type 0
From a [] = Unit
From a (e ∷ es) = before a e.path ≡ true

-- Ordered by path, and no path twice.
abbrev pub Sorted : List Event → Type 0
Sorted [] = Unit
Sorted (e ∷ es) = From e.path es × Sorted es

event_for-insert :
    (p : Bytes) (e : Event) (es : List Event)
    → event_for p (insert_event e es) ≡ (if bytes_eq p e.path then some e else event_for p es)
unfolding event_for insert_event
event_for-insert p e [] = refl
event_for-insert p e (x ∷ es) = elim (Bool-cases (before x.path e.path)) [
  | inl b ↦
      rw b (ap (λ o. if bytes_eq p x.path then some x else o) (event_for-insert p e es) ∙ swap b)
  | inr b ↦ rw b refl
]
  where
    clash : bytes_eq p x.path ≡ true → bytes_eq p e.path ≡ true → before x.path e.path ≡ true → ⊥
    clash h k b =
        let q : x.path ≡ e.path = sym ((bytes_eq_iff p x.path).0 h) ∙ (bytes_eq_iff p e.path).0 k in
        let n = before_irrefl e.path in differ (sym (ap (λ s. before s e.path) q ∙ n) ∙ b)
      where
        differ : false ≡ true → ⊥
        differ y = ground arith

    swap :
        before x.path e.path ≡ true
        → (if bytes_eq p x.path
            then some x
            else if bytes_eq p e.path
            then some e
            else event_for p es)
          ≡ (if bytes_eq p e.path
              then some e
              else if bytes_eq p x.path
              then some x
              else event_for p es)
    swap b = elim (Bool-cases (bytes_eq p x.path)) [
      | inl h ↦ elim (Bool-cases (bytes_eq p e.path)) [
        | inl k ↦ absurd (clash h k b)
        | inr k ↦ rw (h, k) refl
      ]
      | inr h ↦ rw h refl
    ]

From-insert :
    (a : Bytes) (e : Event) (es : List Event)
    → before a e.path ≡ true
    → From a es
    → From a (insert_event e es)
unfolding insert_event
From-insert a e [] h f = h
From-insert a e (x ∷ es) h f = elim (Bool-cases (before x.path e.path)) [
  | inl b ↦ rw b f
  | inr b ↦ rw b h
]

insert_event-Sorted :
    (e : Event) (es : List Event)
    → event_for e.path es ≡ none
    → Sorted es
    → Sorted (insert_event e es)
unfolding insert_event event_for
insert_event-Sorted e [] n s = (tt, tt)
insert_event-Sorted e (x ∷ es) n (f, s) = elim (Bool-cases (before x.path e.path)) [
  | inl b ↦ rw b (From-insert x.path e es b f, insert_event-Sorted e es (ground (arith, n)) s)
  | inr b ↦ rw b (before_total x.path e.path b (ground (arith, n)), (f, s))
]

-- Each event stands under its path.
abbrev pub Keyed : List (Bytes × Event) → Type 0
Keyed m = All (λ x. x.1.path ≡ x.0) m

pub event_for-sorted :
    (p : Bytes) (m : List (Bytes × Event)) → Keyed m → event_for p (sorted_events m) ≡ lookup p m
unfolding sorted_events event_for lookup
event_for-sorted p [] k = refl
event_for-sorted p ((q, e) ∷ m) (k, ks) =
    event_for-insert p e (sorted_events m)
    ∙ ap (λ s. if bytes_eq p s then some e else event_for p (sorted_events m)) k
    ∙ ap (λ o. if bytes_eq p q then some e else o) (event_for-sorted p m ks)

pub sorted_events-Sorted :
    (m : List (Bytes × Event)) → Keyed m → Distinct m → Sorted (sorted_events m)
unfolding sorted_events
sorted_events-Sorted [] k d = tt
sorted_events-Sorted ((q, e) ∷ m) (k, ks) (n, d) =
    insert_event-Sorted e (sorted_events m)
      (event_for-sorted e.path m ks ∙ ap (λ s. lookup s m) k ∙ n) (sorted_events-Sorted m ks d)
