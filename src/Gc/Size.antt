-- ===== src/Gc/Size.antt =====
-- What `SweepBySize` evicts.
use treeman.Prelude.{
  ℕ, suc, ◌-◌, ◌<◌, Bool, true, false, List, [], ◌∷◌, leb, leb→le, ◌≡◌, refl, sym, ap, subst, some,
  ◌*◌, ◌∙◌, arith, Bool-cases, inl, inr,
}
use treeman.Prelude.Text.{Bytes}
use treeman.Prelude.Map.{bytes_key}
use treeman.Pins.{is_pinned}
use treeman.Gc.{
  Candidate, Servers, Readings, World, evict_size, delete_snapshot, drop_template, size_row,
  size_loop, sweep_by_size, write_event,
}
use treeman.Gc.Tried.{Has, Dropped, Tried, drop-Tried}
use treeman.Gc.Evicted.{Evicted, idle-Evicted, skip-Evicted, gone-Evicted, after_delete}

-- `DropTemplate` is a drop from a pool without connections.
drop_template-Tried :
    (sv : Servers) (c : Candidate) (w : World)
    → Tried c w ((drop_template sv c w).0, record { conns = []; world = (drop_template sv c w).1 })
unfolding drop_template
drop_template-Tried sv c w =
    let t = drop-Tried sv c (record { conns = []; world = w }) in
    record { rows = t.rows; events = t.events; kept = t.kept; dropped = t.dropped }

deleted-rows :
    (sv : Servers) (fp : Bytes) (w : World)
    → ((delete_snapshot sv fp w).rows ≡ after_delete sv fp w.rows)
      × ((delete_snapshot sv fp w).events ≡ w.events)
      × ((delete_snapshot sv fp w).deeds ≡ w.deeds)
unfolding delete_snapshot after_delete
deleted-rows sv fp w = elim (Bool-cases (sv.delete_fails fp)) [
  | inl e ↦ rw e (refl, refl, refl)
  | inr e ↦ rw e (refl, refl, refl)
]

module _ (sv : Servers) (pins : Readings) where
  size_loop-Evicted :
      (cap i total : ℕ) (cands : List (Candidate × ℕ)) (w : World)
      → Evicted sv pins cap total cands w (size_loop sv pins i cap total cands w)
  unfolding size_loop
  size_loop-Evicted cap i total [] w = elim (Bool-cases (leb total cap)) [
    | inl e ↦ idle-Evicted sv pins cap total [] w (inl (leb→le total cap e))
    | inr e ↦ idle-Evicted sv pins cap total [] w (inr (ground (arith, e)))
  ]
  size_loop-Evicted cap i total ((c, size) ∷ cands) w = elim (Bool-cases (leb total cap)) [
    | inl e ↦ rw e (idle-Evicted sv pins cap total ((c, size) ∷ cands) w (inl (leb→le total cap e)))
    | inr e ↦ elim (Bool-cases (is_pinned (pins i) c.fingerprint)) [
      | inl p ↦
          rw (e, p)
            (skip-Evicted sv pins cap total (c, size) cands w w _ refl refl (λ d m. m)
              ((c, size), inl refl, inl (i, p)) (size_loop-Evicted cap (suc i) total cands w))
      | inr p ↦
          rw (e, p)
            (round (ground (arith, e)) (drop_template sv c w) refl (drop_template-Tried sv c w)
              (λ t v. size_loop-Evicted cap (suc i) t cands v))
    ]
  ]
    where
      round :
          cap < total
          → (x : Bool × World) → drop_template sv c w ≡ x
          → Tried c w (x.0, record { conns = []; world = x.1 })
          → ((t : ℕ) (v : World)
              → Evicted sv pins cap t cands v (size_loop sv pins (suc i) cap t cands v))
          → Evicted sv pins cap total ((c, size) ∷ cands) w (
              size_loop sv pins
                (suc i)
                cap
                (size_row sv c size total x).0
                cands
                (size_row sv c size total x).1)
      round l (false, v) e t later =
          skip-Evicted sv pins cap total (c, size) cands w v
            (size_loop sv pins (suc i) cap total cands v) t.rows t.events t.kept
            ((c, size), inl refl, inr (w, ap (λ y. y.0) e)) (later total v)
      round l (true, v) e t later =
          let u = write_event evict_size c.fingerprint (delete_snapshot sv c.fingerprint v) in
          let (r, es, ds) = deleted-rows sv c.fingerprint v in
          gone-Evicted sv pins cap total c size cands w u
            (size_loop sv pins (suc i) cap (total - size) cands u) l
            (r ∙ ap (after_delete sv c.fingerprint) t.rows)
            (ap (λ y. (evict_size, c.fingerprint) ∷ y) (es ∙ t.events))
            (λ d m. subst (Has d) (sym ds) (t.kept d m))
            (subst (Dropped c) (sym ds) (t.dropped refl)) (later (total - size) u)

  -- `SweepBySize` evicts candidates one after the other, each only while the total is above the cap.
  -- It has dropped the template of each, takes its size off the total, writes its event, and deletes
  -- its rows unless that fails; all other rows stay. In the end the total is at or below the cap,
  -- unless some candidate was pinned or could not be dropped, or the sizes of the candidates do not
  -- make up the total.
  pub sweep_by_size-Evicted :
      (gb total : ℕ) (cands : List (Candidate × ℕ)) (w : World)
      → (left : ℕ) × Evicted sv pins
          (suc gb * 1024 * 1024 * 1024)
          total
          cands
          w
          (left, sweep_by_size sv pins (suc gb) (some (total, cands)) w)
  unfolding sweep_by_size
  sweep_by_size-Evicted gb total cands w =
      let h = size_loop-Evicted (suc gb * 1024 * 1024 * 1024) 0 total cands w in (_, h)
