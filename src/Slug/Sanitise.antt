-- ===== src/Slug/Sanitise.antt =====
-- What `sanitiseBranch` keeps of a branch, and the form of what it returns.
use treeman.Prelude.{
  ℕ, List, [], ◌∷◌, ◌++◌, Bool, true, false, not, if◌then◌else◌, All, ◌≡◌, refl, arith, Bool-cases,
  inl, inr, ap, sym, ◌∙◌, append_assoc, append-nil, reverse, reverse-append, subst,
}
use treeman.Prelude.Text.{Bytes, trim_left, trim_right}
use mathlib.Core.List.{reverse-cons, reverse-reverse}
use treeman.Slug.Shape.{IsWord}
use treeman.Slug.{Host, is_underscore, alnum, write_rune, sanitise_loop, sanitise_branch}

-- The letters and digits, in order.
abbrev pub letters : Bytes → Bytes
letters [] = []
letters (c ∷ s) = if alnum c then c ∷ letters s else letters s

-- No underscore at the front.
abbrev pub HeadOk : Bytes → Type 0
HeadOk [] = Unit {0}
HeadOk (c ∷ s) = is_underscore c ≡ false

-- No two underscores side by side.
abbrev pub NoDouble : Bytes → Type 0
NoDouble [] = Unit {0}
NoDouble (c ∷ s) = (is_underscore c ≡ true → HeadOk s) × NoDouble s

-- The loop with no builder.
loop_out : List ℕ → Bool → Bytes
loop_out [] prev = []
loop_out (r ∷ rs) prev = write_rune r prev ++ loop_out rs (not (alnum r))

sanitise_loop-loop_out :
    (rs : List ℕ) (prev : Bool) (b : Bytes) → sanitise_loop rs prev b ≡ b ++ loop_out rs prev
unfolding sanitise_loop loop_out
sanitise_loop-loop_out [] prev b = sym (append-nil b)
sanitise_loop-loop_out (r ∷ rs) prev b =
    sanitise_loop-loop_out rs _ _ ∙ append_assoc b (write_rune r prev) _

letters-loop_out : (rs : List ℕ) (prev : Bool) → letters (loop_out rs prev) ≡ letters rs
unfolding loop_out
letters-loop_out [] prev = refl
letters-loop_out (r ∷ rs) prev = ground (arith, letters-loop_out rs (not (alnum r)))

loop_out-HeadOk : (rs : List ℕ) → HeadOk (loop_out rs true)
unfolding loop_out
loop_out-HeadOk [] = tt
loop_out-HeadOk (r ∷ rs) = ground (arith, loop_out-HeadOk rs)

loop_out-NoDouble : (rs : List ℕ) (prev : Bool) → NoDouble (loop_out rs prev)
unfolding loop_out
loop_out-NoDouble [] prev = tt
loop_out-NoDouble (r ∷ rs) prev =
    ground (arith, loop_out-NoDouble rs (not (alnum r)), loop_out-HeadOk rs)

letters-append : (s t : Bytes) → letters (s ++ t) ≡ letters s ++ letters t
letters-append [] t = refl
letters-append (c ∷ s) t = ground (arith, letters-append s t)

HeadOk-prefix : (s t : Bytes) → HeadOk (s ++ t) → HeadOk s
HeadOk-prefix [] t h = tt
HeadOk-prefix (c ∷ s) t h = h

NoDouble-prefix : (s t : Bytes) → NoDouble (s ++ t) → NoDouble s
NoDouble-prefix [] t h = tt
NoDouble-prefix (c ∷ s) t (h, r) = (λ u. HeadOk-prefix s t (h u), NoDouble-prefix s t r)

NoDouble-suffix : (s t : Bytes) → NoDouble (s ++ t) → NoDouble t
NoDouble-suffix [] t h = h
NoDouble-suffix (c ∷ s) t (h, r) = NoDouble-suffix s t r

trim_left-HeadOk : (s : Bytes) → HeadOk (trim_left is_underscore s)
unfolding trim_left
trim_left-HeadOk [] = tt
trim_left-HeadOk (c ∷ s) = ground (arith, trim_left-HeadOk s)

-- Trimming takes underscores off, and nothing else.
trim_left-cut :
    (s : Bytes)
    → (u : Bytes) × (s ≡ u ++ trim_left is_underscore s)
      × (letters u ≡ [])
      × (letters (reverse u) ≡ [])
unfolding trim_left
trim_left-cut [] = ([], refl, refl, refl)
trim_left-cut (c ∷ s) = elim (Bool-cases (is_underscore c)) [
  | inl e ↦
      let (u, p, q, r) = trim_left-cut s in
      (
        c ∷ u,
        rw e (ap (◌∷◌ c) p),
        ground (arith, e, q),
        rw (reverse-cons c u, letters-append (reverse u) (c ∷ []), r) (ground (arith, e)),
      )
  | inr e ↦ ([], rw e, refl, refl)
]

trim_right-cut :
    (s : Bytes) → (u : Bytes) × (s ≡ trim_right is_underscore s ++ u) × (letters u ≡ [])
unfolding trim_right
trim_right-cut s =
    let (u, p, _, q) = trim_left-cut (reverse s) in
    (reverse u, sym (reverse-reverse s) ∙ ap reverse p ∙ reverse-append u _, q)

trim_right-HeadOk-reverse : (s : Bytes) → HeadOk (reverse (trim_right is_underscore s))
unfolding trim_right
trim_right-HeadOk-reverse s = rw reverse-reverse (trim_left-HeadOk (reverse s))

-- `sanitiseBranch` keeps the letters and digits of the lowered branch, all of them and in order.
-- What it returns neither begins nor ends with an underscore, and has no two side by side.
pub sanitise_branch_lem :
    (h : Host) (branch : Bytes)
    → let s = sanitise_branch h branch in
      (letters s ≡ letters (h.to_lower branch)) × HeadOk s × HeadOk (reverse s) × NoDouble s
unfolding sanitise_branch
sanitise_branch_lem h branch =
    let t = trim_left is_underscore raw in
    let (u, p, q, _) = trim_left-cut raw in
    let (v, r, w) = trim_right-cut t in
    (
      same-letters u _ v (p ∙ ap (◌++◌ u) r) q w,
      HeadOk-prefix _ v (subst HeadOk r (trim_left-HeadOk raw)),
      trim_right-HeadOk-reverse t,
      NoDouble-prefix _ v (subst NoDouble r (NoDouble-suffix u t (subst NoDouble p tidy))),
    )
  where
    raw : Bytes
    raw = sanitise_loop (h.to_lower branch) true []

    tidy : NoDouble raw
    tidy = rw sanitise_loop-loop_out (loop_out-NoDouble (h.to_lower branch) true)

    same-letters :
        (u s v : Bytes)
        → raw ≡ u ++ (s ++ v)
        → letters u ≡ []
        → letters v ≡ []
        → letters s ≡ letters (h.to_lower branch)
    same-letters u s v e a b = ground (
      arith,
      ap letters e,
      letters-append u (s ++ v),
      letters-append s v,
      append-nil (letters s),
      ap letters (sanitise_loop-loop_out (h.to_lower branch) true []),
      letters-loop_out (h.to_lower branch) true,
    )

loop_out_fixed :
    (s : Bytes) (prev : Bool)
    → All IsWord s
    → NoDouble s
    → (prev ≡ true → HeadOk s)
    → loop_out s prev ≡ s
unfolding loop_out
loop_out_fixed [] prev w n h = refl
loop_out_fixed (c ∷ s) prev (w, ws) (n, ns) h =
    ground (arith, loop_out_fixed s (not (alnum c)) ws ns)

trim_left_fixed : (s : Bytes) → HeadOk s → trim_left is_underscore s ≡ s
unfolding trim_left
trim_left_fixed [] h = refl
trim_left_fixed (c ∷ s) h = rw h

trim_right_fixed : (s : Bytes) → HeadOk (reverse s) → trim_right is_underscore s ≡ s
unfolding trim_right
trim_right_fixed s h = ap reverse (trim_left_fixed (reverse s) h) ∙ reverse-reverse s

-- A branch that is in the form already, and that lowering leaves alone, is returned as it is.
pub sanitise_branch_fixed :
    (h : Host) (s : Bytes)
    → h.to_lower s ≡ s
    → All IsWord s
    → HeadOk s
    → HeadOk (reverse s)
    → NoDouble s
    → sanitise_branch h s ≡ s
unfolding sanitise_branch
sanitise_branch_fixed h s e w a b n =
    rw
      (e, sanitise_loop-loop_out s true [], loop_out_fixed s true w n (λ _. a), trim_left_fixed s a)
      (trim_right_fixed s b)
