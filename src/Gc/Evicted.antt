-- ===== src/Gc/Evicted.antt =====
-- Evictions one after the other, under a cap on the total size.
use treeman.Prelude.{
  map, ℕ, ◌+◌, ◌-◌, ◌≤◌, ◌<◌, Bool, true, false, not, ◌&&◌, ◌||◌, List, [], ◌∷◌, ◌++◌,
  if◌then◌else◌, append_assoc, All, All-append, ◌⊎◌, ◌≡◌, refl, sym, ap, ◌∙◌, arith, Bool-cases,
  inl, inr,
}
use mathlib.Core.List.{map-append}
use treeman.Prelude.Text.{Bytes, bytes_eq, bytes_eq_iff}
use treeman.Prelude.Map.{bytes_key}
use treeman.Pins.{is_pinned}
use treeman.Gc.{
  Candidate, Servers, Readings, World, Deed, Event, evict_size, delete_rows, drop_template,
}
use treeman.Gc.Rows.{rows_of, rows_of-delete_rows, rows_of_deleted}
use treeman.Gc.Tried.{Has, Dropped}
use treeman.Gc.Purge.{among, among-append, all_weaker}

-- The sizes of the candidates, added up.
abbrev pub total_size : List (Candidate × ℕ) → ℕ
total_size [] = 0
total_size (x ∷ xs) = x.1 + total_size xs

abbrev pub candidates : List (Candidate × ℕ) → List Candidate
candidates xs = map (λ x. x.0) xs

-- From the latest eviction on: before each one the total was above the cap.
abbrev pub Needed : ℕ → ℕ → List (Candidate × ℕ) → Type 0
Needed cap total [] = Unit {0}
Needed cap total (x ∷ xs) = (cap < total - total_size xs) × Needed cap total xs

-- A candidate that was pinned, or that a server would not drop.
abbrev pub Skipped : Servers → Readings → List (Candidate × ℕ) → Type 0
Skipped sv pins cands =
    (x : Candidate × ℕ) × Has x cands
    × (((k : ℕ) × (is_pinned (pins k) x.0.fingerprint ≡ true))
        ⊎ ((v : World) × ((drop_template sv x.0 v).0 ≡ false)))

-- The candidates that are evicted, from the latest on, each at a total above the cap, with an event
-- each; the template of each was dropped; their rows are gone where they can be deleted, and no
-- others.
pub record Evicted (sv : Servers) (pins : Readings) (cap total : ℕ) (cands : List (Candidate × ℕ))
    (w : World) (out : ℕ × World) : Type 0 where
  pub gone : List (Candidate × ℕ)
  pub listed : All (λ x. Has x cands) gone
  pub needed : Needed cap total gone
  pub left : out.0 ≡ total - total_size gone
  pub events : out.1.events ≡ map (λ x. (evict_size, x.0.fingerprint)) gone ++ w.events
  pub dropped : All (λ x. Dropped x.0 out.1.deeds) gone
  pub rows :
      (fp : Bytes)
      → rows_of fp out.1.rows
        ≡ (if among fp (candidates gone) && not (sv.delete_fails fp) then [] else rows_of fp w.rows)
  pub kept : (d : Deed) → Has d w.deeds → Has d out.1.deeds
  pub enough : (out.0 ≤ cap) ⊎ Skipped sv pins cands ⊎ (total_size cands < total)

total_size-append :
    (xs : List (Candidate × ℕ)) (x : Candidate × ℕ)
    → total_size (xs ++ x ∷ []) ≡ total_size xs + x.1
total_size-append [] x = omega arith
total_size-append (y ∷ xs) x = omega (arith, total_size-append xs x)

Needed-append :
    (cap total : ℕ) (xs : List (Candidate × ℕ)) (x : Candidate × ℕ)
    → cap < total
    → Needed cap (total - x.1) xs
    → Needed cap total (xs ++ x ∷ [])
Needed-append cap total [] x l h = (omega (arith, l), tt)
Needed-append cap total (y ∷ xs) x l (h, hs) =
    (omega (arith, h, total_size-append xs x), Needed-append cap total xs x l hs)

-- Nothing is evicted.
pub idle-Evicted :
    (sv : Servers) (pins : Readings) (cap total : ℕ) (cands : List (Candidate × ℕ)) (w : World)
    → (total ≤ cap) ⊎ (total_size cands < total)
    → Evicted sv pins cap total cands w (total, w)
idle-Evicted sv pins cap total cands w h = record {
  gone = [];
  listed = tt;
  needed = tt;
  left = omega arith;
  events = refl;
  dropped = tt;
  rows = λ fp. refl;
  kept = λ d m. m;
  enough = go h;
}
  where
    go :
        (total ≤ cap) ⊎ (total_size cands < total)
        → (total ≤ cap) ⊎ Skipped sv pins cands ⊎ (total_size cands < total)
    go (inl l) = inl l
    go (inr l) = inr (inr l)

-- One candidate is skipped, which leaves the world but for what was tried on a server.
pub skip-Evicted :
    (sv : Servers) (pins : Readings) (cap total : ℕ) (x : Candidate × ℕ)
    (cands : List (Candidate × ℕ)) (w v : World) (out : ℕ × World)
    → v.rows ≡ w.rows
    → v.events ≡ w.events
    → ((d : Deed) → Has d w.deeds → Has d v.deeds)
    → Skipped sv pins (x ∷ cands)
    → Evicted sv pins cap total cands v out
    → Evicted sv pins cap total (x ∷ cands) w out
skip-Evicted sv pins cap total x cands w v out r e k s h = record {
  gone = h.gone;
  listed = all_weaker h.gone (λ g m. inr m) h.listed;
  needed = h.needed;
  left = h.left;
  events = h.events ∙ ap (λ es. map (λ g. (evict_size, g.0.fingerprint)) h.gone ++ es) e;
  dropped = h.dropped;
  rows = λ fp.
      h.rows fp
      ∙ ap
          (λ rs.
            if among fp (candidates h.gone) && not (sv.delete_fails fp) then [] else rows_of fp rs)
          r;
  kept = λ d m. h.kept d (k d m);
  enough = inr (inl s);
}

-- The rows that a deletion leaves, which may fail.
unfoldable pub after_delete : Servers → Bytes → List Candidate → List Candidate
after_delete sv fp rows = if sv.delete_fails fp then rows else delete_rows fp rows

deleted_before :
    (sv : Servers) (fp : Bytes) (cs : List Candidate) (c : Candidate) (rows : List Candidate)
    → (if among fp cs && not (sv.delete_fails fp)
        then []
        else rows_of fp (after_delete sv c.fingerprint rows))
      ≡ (if among fp (cs ++ c ∷ []) && not (sv.delete_fails fp) then [] else rows_of fp rows)
unfolding after_delete
deleted_before sv fp cs c rows = elim (Bool-cases (bytes_eq c.fingerprint fp)) [
  | inr f ↦ elim (Bool-cases (sv.delete_fails c.fingerprint)) [
    | inl d ↦ rw (among-append fp cs c, f, d) (same (among fp cs))
    | inr d ↦
        rw (among-append fp cs c, f, d, rows_of-delete_rows fp c.fingerprint rows f)
          (same (among fp cs))
  ]
  | inl f ↦
      (let e = (bytes_eq_iff c.fingerprint fp).0 f in
        elim (Bool-cases (sv.delete_fails fp)) [
          | inl d ↦ rw (among-append fp cs c, f, d, e) (stays (among fp cs) d)
          | inr d ↦ rw (among-append fp cs c, f, d, e) (goes (among fp cs) d)
        ])
]
  where
    same :
        (b : Bool)
        → (if b && not (sv.delete_fails fp) then [] else rows_of fp rows)
          ≡ (if (b || false) && not (sv.delete_fails fp) then [] else rows_of fp rows)
    same true = refl
    same false = refl

    stays :
        (b : Bool)
        → sv.delete_fails fp ≡ true
        → (if b && false
            then []
            else rows_of fp (if sv.delete_fails fp then rows else delete_rows fp rows))
          ≡ (if (b || true) && false then [] else rows_of fp rows)
    stays true d = rw d refl
    stays false d = rw d refl

    goes :
        (b : Bool)
        → sv.delete_fails fp ≡ false
        → (if b && true
            then []
            else rows_of fp (if sv.delete_fails fp then rows else delete_rows fp rows))
          ≡ (if (b || true) && true then [] else rows_of fp rows)
    goes true d = refl
    goes false d = rw d (rows_of_deleted fp rows)

-- A candidate whose template was dropped is evicted.
pub gone-Evicted :
    (sv : Servers) (pins : Readings) (cap total : ℕ) (c : Candidate) (size : ℕ)
    (cands : List (Candidate × ℕ)) (w u : World) (out : ℕ × World)
    → cap < total
    → u.rows ≡ after_delete sv c.fingerprint w.rows
    → u.events ≡ (evict_size, c.fingerprint) ∷ w.events
    → ((d : Deed) → Has d w.deeds → Has d u.deeds)
    → Dropped c u.deeds
    → Evicted sv pins cap (total - size) cands u out
    → Evicted sv pins cap total ((c, size) ∷ cands) w out
gone-Evicted sv pins cap total c size cands w u out l r e k (key, m) h = record {
  gone = h.gone ++ (c, size) ∷ [];
  listed =
      All-append (λ g. Has g ((c, size) ∷ cands)) h.gone ((c, size) ∷ [])
        (all_weaker h.gone (λ g i. inr i) h.listed) (inl refl, tt);
  needed = Needed-append cap total h.gone (c, size) l h.needed;
  left = (let a = h.left in let b = total_size-append h.gone (c, size) in omega (arith, a, b));
  events =
      h.events
      ∙ ap (λ es. map event h.gone ++ es) e
      ∙ sym (append_assoc (map event h.gone) ((evict_size, c.fingerprint) ∷ []) w.events)
      ∙ ap (λ es. es ++ w.events) (sym (map-append event h.gone ((c, size) ∷ [])));
  dropped =
      All-append (λ g. Dropped g.0 out.1.deeds) h.gone ((c, size) ∷ []) h.dropped
        ((key, h.kept _ m), tt);
  rows = λ fp.
      h.rows fp
      ∙ ap
          (λ rs.
            if among fp (candidates h.gone) && not (sv.delete_fails fp) then [] else rows_of fp rs)
          r
      ∙ deleted_before sv fp (candidates h.gone) c w.rows
      ∙ ap (λ cs. if among fp cs && not (sv.delete_fails fp) then [] else rows_of fp w.rows)
          (sym (map-append (λ (x : Candidate × ℕ). x.0) h.gone ((c, size) ∷ [])));
  kept = λ d i. h.kept d (k d i);
  enough = later h.enough;
}
  where
    event : Candidate × ℕ → Event × Bytes
    event g = (evict_size, g.0.fingerprint)

    later :
        (out.0 ≤ cap) ⊎ Skipped sv pins cands ⊎ (total_size cands < total - size)
        → (out.0 ≤ cap) ⊎ Skipped sv pins ((c, size) ∷ cands) ⊎ (size + total_size cands < total)
    later (inl a) = inl a
    later (inr (inl (x, i, s))) = inr (inl (x, inr i, s))
    later (inr (inr a)) = inr (inr (omega (arith, a)))
