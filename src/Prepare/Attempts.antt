-- ===== src/Prepare/Attempts.antt =====
-- How often an operation is tried.
use treeman.Prelude.{
  ℕ, zero, suc, ◌+◌, ◌≤◌, ◌<◌, min, Bool, true, false, ◌||◌, not, Option, none, some, ◌==◌, ==_iff,
  leb, if◌then◌else◌, ◌≡◌, ◌⊎◌, refl, sym, ap, subst, ◌∙◌, arith, Bool-cases, Option-cases, inl,
  inr,
}
use treeman.Prepare.{
  contains_any, signatures, Error, is_cancellation, is_transient_conn, transient_backoff, End, ok,
  failed, dead, stopped, Run, after_error, after_try, retry_loop, retry_transient,
}

module _ (outcome : ℕ → Option Error) (done_before done_after : ℕ → Bool) where
  -- The error of a try is a dropped connection.
  pub record Dropped (n : ℕ) : Type 0 where
    pub error : Error
    pub answered : outcome n ≡ some error
    pub transient : is_transient_conn error ≡ true

  -- What the end says of the last of the tries.
  abbrev pub Last : End → ℕ → Type 0
  Last ok calls = (n : ℕ) × (calls ≡ suc n) × (outcome n ≡ none)
  Last (failed e) calls =
      (n : ℕ) × (calls ≡ suc n) × (outcome n ≡ some e) × (is_transient_conn e ≡ false)
  Last (dead e) calls = (calls ≡ 4) × (outcome 3 ≡ some e) × (is_transient_conn e ≡ true)
  Last stopped calls =
      (done_before calls ≡ true) ⊎ ((n : ℕ) × (calls ≡ suc n) × Dropped n × (done_after n ≡ true))

  pub record Retried (out : Option Run) : Type 0 where
    pub end : End
    pub calls : ℕ
    pub waited : ℕ
    pub result : out ≡ some (end, calls, waited)
    pub few : calls ≤ 4
    pub short : waited ≤ 3250
    pub earlier : (n : ℕ) → suc n < calls → Dropped n
    pub last : Last end calls

  -- The waits before a try.
  abbrev waits : ℕ → ℕ
  waits zero = 0
  waits (suc n) = waits n + transient_backoff (min n 2)

  waits-le : (a : ℕ) → a ≤ 3 → waits a ≤ 3250
  unfolding transient_backoff
  waits-le zero h = omega arith
  waits-le (suc zero) h = omega arith
  waits-le (suc (suc zero)) h = omega arith
  waits-le (suc (suc (suc zero))) h = omega arith
  waits-le (suc (suc (suc (suc a)))) h = absurd (omega arith)

  -- A cancellation is no dropped connection.
  cancelled-conn :
      (e : Error)
      → is_transient_conn e ≡ true
      → (is_cancellation e || not (is_transient_conn e)) ≡ false
  unfolding is_transient_conn
  cancelled-conn e h = elim (Bool-cases (is_cancellation e)) [
    | inl c ↦ absurd (
        impossible (
          sym (
            ap (λ b. if b then false else if e.at_eof then true else contains_any e.text signatures)
              c)
          ∙ h))
    | inr c ↦ both c h
  ]
    where
      impossible : false ≡ true → ⊥
      impossible n = ground arith

      both : {b c : Bool} → b ≡ false → c ≡ true → (b || not c) ≡ false
      both {b} {c} h k = ground arith

  other-conn : (c t : Bool) → t ≡ false → (c || not t) ≡ true
  other-conn c t h = ground arith

  -- One round of the loop after `a` dropped connections.
  round-Retried :
      (f a : ℕ)
      → a + suc f ≡ 4
      → ((n : ℕ) → n < a → Dropped n)
      → (leb 3 a ≡ false
          → ((n : ℕ) → n < suc a → Dropped n)
          → Retried (retry_loop outcome done_before done_after f (suc a) (waits (suc a))))
      → Retried (retry_loop outcome done_before done_after (suc f) a (waits a))
  unfolding retry_loop
  round-Retried f a s d next = elim (Bool-cases (done_before a)) [
    | inl b ↦ record {
      end = stopped;
      calls = a;
      waited = waits a;
      result = rw b refl;
      few = omega arith;
      short = waits-le a (omega arith);
      earlier = λ n h. d n (omega arith);
      last = inl b;
    }
    | inr b ↦
        subst Retried
          (sym (
            ap
              (λ c.
                if c
                then some (stopped, a, waits a)
                else after_try outcome done_before done_after a (waits a) (outcome a) rest)
              b))
          (tried (Option-cases (outcome a)))
  ]
    where
      rest : Option Run
      rest = retry_loop outcome done_before done_after f (suc a) (waits (suc a))

      -- A run that ends with this try.
      ends : (o : Option Run) (e : End) → o ≡ some (e, suc a, waits a) → Last e (suc a) → Retried o
      ends o e r l = record {
        end = e;
        calls = suc a;
        waited = waits a;
        result = r;
        few = omega arith;
        short = waits-le a (omega arith);
        earlier = λ n h. d n (omega arith);
        last = l;
      }

      more :
          (e : Error)
          → outcome a ≡ some e
          → is_transient_conn e ≡ true
          → (n : ℕ) → n < suc a
          → Dropped n
      more e o t n h = elim (Bool-cases (n == a)) [
        | inl y ↦
            subst Dropped (sym ((==_iff n a).0 y))
              (record { error = e; answered = o; transient = t })
        | inr y ↦ d n (ground (arith, y, h))
      ]

      dropped :
          (e : Error)
          → outcome a ≡ some e
          → is_transient_conn e ≡ true
          → Retried (after_error outcome done_before done_after a (waits a) e rest)
      dropped e o t = rw (cancelled-conn e t) (elim (Bool-cases (leb 3 a)) [
        | inl l ↦
            (let q : a ≡ 3 = ground (arith, s, l) in
              ends _ (dead e) (rw l refl) (ap suc q, ap outcome (sym q) ∙ o, t))
        | inr l ↦ elim (Bool-cases (done_after a)) [
          | inl g ↦
              ends _ stopped (rw (l, g) refl)
                (inr (a, refl, record { error = e; answered = o; transient = t }, g))
          | inr g ↦ rw (l, g) (next l (more e o t))
        ]
      ])

      answered :
          (e : Error)
          → outcome a ≡ some e
          → Retried (after_error outcome done_before done_after a (waits a) e rest)
      answered e o = elim (Bool-cases (is_transient_conn e)) [
        | inl t ↦ dropped e o t
        | inr t ↦
            ends _ (failed e) (rw (other-conn (is_cancellation e) (is_transient_conn e) t) refl)
              (a, refl, o, t)
      ]

      tried :
          (outcome a ≡ none) ⊎ ((e : Error) × (outcome a ≡ some e))
          → Retried (after_try outcome done_before done_after a (waits a) (outcome a) rest)
      tried (inl o) =
          ends _ ok (ap (λ x. after_try outcome done_before done_after a (waits a) x rest) o)
            (a, refl, o)
      tried (inr (e, o)) =
          subst Retried
            (sym (ap (λ x. after_try outcome done_before done_after a (waits a) x rest) o))
            (answered e o)

  loop-Retried :
      (f a : ℕ)
      → a + suc f ≡ 4
      → ((n : ℕ) → n < a → Dropped n)
      → Retried (retry_loop outcome done_before done_after (suc f) a (waits a))
  loop-Retried zero a s d = round-Retried zero a s d (λ l m. absurd (ground (arith, s, l)))
  loop-Retried (suc f) a s d =
      round-Retried (suc f) a s d (λ l m. loop-Retried f (suc a) (omega arith) m)

  -- `retryTransient` returns after at most four tries and 3.25 s of waiting, whatever the tries answer.
  -- Every try but the last ended in a dropped connection. It returns success only if the last try
  -- succeeded, an error as it is only if the last try made it and it is no dropped connection, the hint
  -- of a dead engine only if all four tries ended in one, and the error of the context only if that
  -- was done before a try or while waiting after one.
  pub retry_transient-Retried : Retried (retry_transient outcome done_before done_after)
  unfolding retry_transient
  retry_transient-Retried = loop-Retried 3 0 refl (λ n h. absurd (omega arith))
