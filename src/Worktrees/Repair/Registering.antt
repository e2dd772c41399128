-- ===== src/Worktrees/Repair/Registering.antt =====
-- The loop of `repairRegister`.
use treeman.Prelude.{
  ℕ, true, false, ◌&&◌, ◌||◌, not, List, [], ◌∷◌, ◌++◌, some, if◌then◌else◌, ◌≡◌, ◌⊎◌, refl, sym,
  ap, subst, ◌∙◌, arith, Bool-cases, inl, inr, or_both, or_false,
}
use treeman.Prelude.Text.{Bytes, bytes_eq, bytes_eq_iff, member}
use treeman.Prelude.Map.{lookup, nat_key, bytes_key}
use treeman.Slug.{Host}
use treeman.Worktrees.{Row, Table, consistent}
use treeman.Worktrees.Table.{Ids}
use treeman.Worktrees.Repair.{
  RepairResult, Progress, has_path, registered, revive_or_insert, repair_register,
}
use treeman.Worktrees.Repair.Register.{Owned, Owned-trans, Step, NoneRetired, revive_or_insert-Step}

-- What the loop over the paths leaves, where `rows` are the rows before.
pub record Listed (repo : ℕ) (root : Bytes) (rows : Table) (ps : List Bytes) (t u : Table)
    : Type 0 where
  pub ids : Ids u
  pub accepted : consistent u ≡ true
  pub back :
      (j : ℕ) (r : Row)
      → lookup j u ≡ some r
      → (lookup j t ≡ some r) ⊎ ((member r.path ps ≡ true) × (r.deleted ≡ false))
  pub forth :
      (j : ℕ) (r : Row)
      → lookup j t ≡ some r
      → (s : Row) × (lookup j u ≡ some s)
        × (s.path ≡ r.path)
        × (r.deleted ≡ false → s.deleted ≡ false)
  pub owner : Owned repo t u
  pub here :
      (p : Bytes)
      → member p ps ≡ true
      → bytes_eq p root ≡ false
      → has_path p rows ≡ false
      → (j : ℕ) × (r : Row) × (lookup j u ≡ some r) × (r.path ≡ p) × (r.deleted ≡ false)

member-or :
    (p q : Bytes) (ps : List Bytes) → member q (p ∷ ps) ≡ true → (q ≡ p) ⊎ (member q ps ≡ true)
unfolding member
member-or p q ps h = elim (Bool-cases (bytes_eq q p)) [
  | inl e ↦ inl ((bytes_eq_iff q p).0 e)
  | inr e ↦ inr (ground (arith, h, e))
]

member-later : (p q : Bytes) (ps : List Bytes) → member q ps ≡ true → member q (p ∷ ps) ≡ true
unfolding member
member-later p q ps h = ground (arith, h)

member-first : (p q : Bytes) (ps : List Bytes) → q ≡ p → member q (p ∷ ps) ≡ true
unfolding member
member-first p q ps h = ground (arith, (bytes_eq_iff q p).1 h)

bools_differ : true ≡ false → ⊥
bools_differ e = ground arith

-- A path that is passed over.
skip-Listed :
    (repo : ℕ) (root p : Bytes) (rows : Table) (ps : List Bytes) (t u : Table)
    → (has_path p rows || bytes_eq p root) ≡ true
    → Listed repo root rows ps t u
    → Listed repo root rows (p ∷ ps) t u
skip-Listed repo root p rows ps t u h l = record {
  ids = l.ids;
  accepted = l.accepted;
  back = λ j r m. elim (l.back j r m) [
    | inl y ↦ inl y
    | inr (y, d) ↦ inr (member-later p r.path ps y, d)
  ];
  forth = l.forth;
  owner = l.owner;
  here = λ q m n o. elim (member-or p q ps m) [
    | inl e ↦
        absurd (
          bools_differ (sym h ∙ ap (λ x. has_path x rows || bytes_eq x root) (sym e) ∙ or_both o n))
    | inr e ↦ l.here q e n o
  ];
}

-- A path that is written.
Step-Listed :
    (repo : ℕ) (root p : Bytes) (rows : Table) (ps : List Bytes) (t u v : Table)
    → Step repo p t u
    → Listed repo root rows ps u v
    → Listed repo root rows (p ∷ ps) t v
Step-Listed repo root p rows ps t u v s l = record {
  ids = l.ids;
  accepted = l.accepted;
  back = λ j r m. elim (l.back j r m) [
    | inl y ↦ elim (s.back j r y) [
      | inl z ↦ inl z
      | inr (e, d) ↦ inr (member-first p r.path ps e, d)
    ]
    | inr (y, d) ↦ inr (member-later p r.path ps y, d)
  ];
  forth = λ j r m.
      let (x, a, b, c) = s.forth j r m in
      let (y, d, e, f) = l.forth j x a in (y, d, e ∙ b, λ g. f (c g));
  owner = Owned-trans repo t u v s.owner l.owner;
  here = λ q m n o. elim (member-or p q ps m) [
    | inl e ↦
        (let (j, r, a, b, c) = s.here in
          let (y, d, g, f) = l.forth j r a in (j, y, d, g ∙ b ∙ sym e, f c))
    | inr e ↦ l.here q e n o
  ];
}

module _ (host : Host) (detect_branch : Bytes → Bytes) (now : ℕ) where
  -- The loop makes no error, and leaves a live row for every path.
  pub repair_register-Listed :
      (repo : ℕ) (root : Bytes) (rows : Table) (ps : List Bytes) (t : Table) (out : RepairResult)
      → Ids t
      → consistent t ≡ true
      → NoneRetired (λ q. member q ps && not (bytes_eq q root)) t
      → (let x = repair_register host detect_branch now repo root rows ps (t, out) in
          (x.1.errors ≡ out.errors)
          × (x.1.unregistered ≡ out.unregistered)
          × Listed repo root rows ps t x.0)
  unfolding repair_register member
  repair_register-Listed repo root rows [] t out k c n = (
    refl,
    refl,
    record {
      ids = k;
      accepted = c;
      back = λ j r m. inl m;
      forth = λ j r m. (r, m, refl, λ d. d);
      owner = λ j r m. inl (r, m, refl, refl);
      here = λ p m. absurd (none_listed p m);
    },
  )
    where
      none_listed : (p : Bytes) → member p [] ≡ true → ⊥
      none_listed p m = ground arith
  repair_register-Listed repo root rows (p ∷ ps) t out k c n =
      elim (Bool-cases (has_path p rows || bytes_eq p root)) [
        | inl e ↦
            (let (a, b, l) =
                repair_register-Listed repo root rows ps t out k c
                  (λ j r m d i. later r.path (n j r m d i)) in
              subst Done (sym (ap (λ c. if c then (t, out) else taken) e))
                (a, b, skip-Listed repo root p rows ps t _ e l))
        | inr e ↦
            (let (u, w, s) =
                revive_or_insert-Step host detect_branch now repo p t k c
                  (λ j r m d i. first r.path (or_false _ _ e).1 (n j r m d i)) in
              let (a, b, l) =
                repair_register-Listed repo root rows ps u
                  (record out { registered = out.registered ++ p ∷ [] }) s.ids s.accepted
                  (after u s) in
              subst Done
                (sym (
                  ap (λ c. if c then (t, out) else taken) e
                  ∙ ap (λ o. registered host detect_branch now p o (t, out)) w))
                (a, b, Step-Listed repo root p rows ps t u _ s l))
      ]
    where
      taken : Progress
      taken =
          registered host detect_branch now p (revive_or_insert host detect_branch now repo p t)
            (t, out)

      Done : Progress → Type 0
      Done y =
          let x = repair_register host detect_branch now repo root rows ps y in
          (x.1.errors ≡ out.errors)
          × (x.1.unregistered ≡ out.unregistered)
          × Listed repo root rows (p ∷ ps) t x.0

      later :
          (q : Bytes)
          → (member q (p ∷ ps) && not (bytes_eq q root)) ≡ false
          → (member q ps && not (bytes_eq q root)) ≡ false
      later q h = ground (arith, h)

      first :
          (q : Bytes)
          → bytes_eq p root ≡ false
          → (member q (p ∷ ps) && not (bytes_eq q root)) ≡ false
          → bytes_eq q p ≡ false
      first q f h = ground (arith, h, f, bytes_eq_iff q p, bytes_eq_iff q root, bytes_eq_iff p root)

      after :
          (u : Table) → Step repo p t u → NoneRetired (λ q. member q ps && not (bytes_eq q root)) u
      after u s j r m d i = elim (s.back j r m) [
        | inl y ↦ later r.path (n j r y d i)
        | inr (_, f) ↦ absurd (bools_differ (sym d ∙ f))
      ]
