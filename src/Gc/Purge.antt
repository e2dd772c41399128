-- ===== src/Gc/Purge.antt =====
-- What `PurgeRepo` has purged.
use treeman.Prelude.{
  map, ℕ, suc, ◌+◌, Bool, true, false, ◌||◌, List, [], ◌∷◌, ◌++◌, none, some, if◌then◌else◌, length,
  length-append, append_assoc, ◌⊎◌, All, All-append, ◌≡◌, refl, sym, ap, ◌∙◌, arith, Bool-cases,
  inl, inr,
}
use mathlib.Core.List.{map-append}
use treeman.Prelude.Text.{Bytes, bytes_eq, bytes_eq_iff}
use treeman.Prelude.Map.{bytes_key}
use treeman.Gc.{
  Candidate, Servers, World, Pool, Deed, Event, purge, delete_rows, delete_snapshot, drop,
  PurgeError, purge_row, tally, purge_loop, purge_repo, of_pool, drop_failed, delete_failed,
  stopped_before,
}
use treeman.Gc.Rows.{rows_of, rows_of-delete_rows, rows_of_deleted}
use treeman.Gc.Tried.{Has, Dropped, Tried, drop-Tried}

abbrev pub among : Bytes → List Candidate → Bool
among fp [] = false
among fp (c ∷ cs) = bytes_eq c.fingerprint fp || among fp cs

-- The candidates that are purged, from the latest on: they are candidates, as many as are counted,
-- with an event each; the template of each was dropped; their rows are gone, and no others. Each of
-- the others has an error, or the context was cancelled.
pub record Purged (cancelled : ℕ → Bool) (cands : List Candidate) (w : World)
    (out : ℕ × List PurgeError × World) : Type 0 where
  pub gone : List Candidate
  pub listed : All (λ c. Has c cands) gone
  pub counted : out.0 ≡ length gone
  pub events : out.2.events ≡ map (λ c. (purge, c.fingerprint)) gone ++ w.events
  pub dropped : All (λ c. Dropped c out.2.deeds) gone
  pub rows :
      (fp : Bytes) → rows_of fp out.2.rows ≡ (if among fp gone then [] else rows_of fp w.rows)
  pub kept : (d : Deed) → Has d w.deeds → Has d out.2.deeds
  pub accounted : (out.0 + length out.1 ≡ length cands) ⊎ ((k : ℕ) × (cancelled k ≡ true))

pub all_weaker :
    {A : Type 0} {P Q : A → Type 0} (xs : List A) → ((x : A) → P x → Q x) → All P xs → All Q xs
all_weaker [] k h = tt
all_weaker (x ∷ xs) k (h, hs) = (k x h, all_weaker xs k hs)

failed-Purged :
    (cancelled : ℕ → Bool) (c : Candidate) (cands : List Candidate) (w : World) (x : Bool × Pool)
    (e : PurgeError) (r : ℕ × List PurgeError × Pool)
    → Tried c w x
    → Purged cancelled cands x.1.world (of_pool r)
    → Purged cancelled (c ∷ cands) w (of_pool (tally (some e) r))
failed-Purged cancelled c cands w x e (n, errs, q) t h = record {
  gone = h.gone;
  listed = all_weaker h.gone (λ g m. inr m) h.listed;
  counted = h.counted;
  events = h.events ∙ ap (λ es. map (λ g. (purge, g.fingerprint)) h.gone ++ es) t.events;
  dropped = h.dropped;
  rows = λ fp. h.rows fp ∙ ap (λ rs. if among fp h.gone then [] else rows_of fp rs) t.rows;
  kept = λ d m. h.kept d (t.kept d m);
  accounted = one_more h.accounted;
}
  where
    one_more :
        (n + length errs ≡ length cands) ⊎ ((k : ℕ) × (cancelled k ≡ true))
        → (n + suc (length errs) ≡ suc (length cands)) ⊎ ((k : ℕ) × (cancelled k ≡ true))
    one_more (inl a) = inl (omega (arith, a))
    one_more (inr k) = inr k

pub among-append :
    (fp : Bytes) (cs : List Candidate) (c : Candidate)
    → among fp (cs ++ c ∷ []) ≡ (among fp cs || bytes_eq c.fingerprint fp)
among-append fp [] c = ground arith
among-append fp (g ∷ cs) c = ground (arith, among-append fp cs c)

-- The rows of a fingerprint after one deletion and then others.
deleted_before :
    (fp : Bytes) (cs : List Candidate) (c : Candidate) (rows : List Candidate)
    → (if among fp cs then [] else rows_of fp (delete_rows c.fingerprint rows))
      ≡ (if among fp (cs ++ c ∷ []) then [] else rows_of fp rows)
deleted_before fp cs c rows = elim (Bool-cases (among fp cs)) [
  | inl e ↦ rw (among-append fp cs c, e) refl
  | inr e ↦ elim (Bool-cases (bytes_eq c.fingerprint fp)) [
    | inl f ↦ rw (among-append fp cs c, e, f) (gone_all ((bytes_eq_iff c.fingerprint fp).0 f))
    | inr f ↦ rw (among-append fp cs c, e, f) (rows_of-delete_rows fp c.fingerprint rows f)
  ]
]
  where
    gone_all : c.fingerprint ≡ fp → rows_of fp (delete_rows c.fingerprint rows) ≡ []
    gone_all e = ap (λ g. rows_of fp (delete_rows g rows)) e ∙ rows_of_deleted fp rows

-- A candidate whose template was dropped, and whose row is deleted.
purged_one : Candidate → World → World
purged_one c v = record v {
  rows = delete_rows c.fingerprint v.rows;
  events = (purge, c.fingerprint) ∷ v.events;
}

gone-Purged :
    (cancelled : ℕ → Bool) (c : Candidate) (cands : List Candidate) (w : World) (x : Bool × Pool)
    (r : ℕ × List PurgeError × Pool)
    → Tried c w x
    → x.0 ≡ true
    → Purged cancelled cands (purged_one c x.1.world) (of_pool r)
    → Purged cancelled (c ∷ cands) w (of_pool (tally none r))
unfolding purged_one
gone-Purged cancelled c cands w x (n, errs, q) t d h = record {
  gone = h.gone ++ c ∷ [];
  listed =
      All-append (λ g. Has g (c ∷ cands)) h.gone (c ∷ [])
        (all_weaker h.gone (λ g m. inr m) h.listed) (inl refl, tt);
  counted = let a = h.counted in let b = length-append h.gone (c ∷ []) in omega (arith, a, b);
  events =
      h.events
      ∙ ap (λ es. map event h.gone ++ (purge, c.fingerprint) ∷ es) t.events
      ∙ sym (append_assoc (map event h.gone) ((purge, c.fingerprint) ∷ []) w.events)
      ∙ ap (λ es. es ++ w.events) (sym (map-append event h.gone (c ∷ [])));
  dropped =
      All-append (λ g. Dropped g q.world.deeds) h.gone (c ∷ []) h.dropped
        (let (key, m) = t.dropped d in ((key, h.kept _ m), tt));
  rows = λ fp.
      h.rows fp
      ∙ deleted_before fp h.gone c x.1.world.rows
      ∙ ap (λ rs. if among fp (h.gone ++ c ∷ []) then [] else rows_of fp rs) t.rows;
  kept = λ y m. h.kept y (t.kept y m);
  accounted = one_more h.accounted;
}
  where
    one_more :
        (n + length errs ≡ length cands) ⊎ ((k : ℕ) × (cancelled k ≡ true))
        → (suc n + length errs ≡ suc (length cands)) ⊎ ((k : ℕ) × (cancelled k ≡ true))
    one_more (inl a) = inl (omega (arith, a))
    one_more (inr k) = inr k

    event : Candidate → Event × Bytes
    event g = (purge, g.fingerprint)

module _ (sv : Servers) (cancelled : ℕ → Bool) where
  purge_loop-Purged :
      (i : ℕ) (cands : List Candidate) (p : Pool)
      → Purged cancelled cands p.world (of_pool (purge_loop sv cancelled i cands p))
  unfolding purge_loop purge_row delete_snapshot purged_one
  purge_loop-Purged i [] p = nothing
    where
      nothing : Purged cancelled [] p.world (0, [], p.world)
      nothing = record {
        gone = [];
        listed = tt;
        counted = refl;
        events = refl;
        dropped = tt;
        rows = λ fp. refl;
        kept = λ d m. m;
        accounted = inl refl;
      }
  purge_loop-Purged i (c ∷ cands) p = elim (Bool-cases (cancelled i)) [
    | inl e ↦ rw e (halted e)
    | inr e ↦
        rw e (round (drop sv c p) (drop-Tried sv c p) (λ q. purge_loop-Purged (suc i) cands q))
  ]
    where
      halted :
          cancelled i ≡ true
          → Purged cancelled (c ∷ cands) p.world (0, stopped_before c.template_name ∷ [], p.world)
      halted e = record {
        gone = [];
        listed = tt;
        counted = refl;
        events = refl;
        dropped = tt;
        rows = λ fp. refl;
        kept = λ d m. m;
        accounted = inr (i, e);
      }

      round :
          (x : Bool × Pool)
          → Tried c p.world x
          → ((q : Pool)
              → Purged cancelled cands q.world (of_pool (purge_loop sv cancelled (suc i) cands q)))
          → Purged cancelled (c ∷ cands) p.world (
              of_pool (
                tally
                  (purge_row sv c x).0
                  (purge_loop sv cancelled (suc i) cands (purge_row sv c x).1)))
      round (false, q) t later =
          failed-Purged cancelled c cands p.world (false, q) (drop_failed c.template_name)
            (purge_loop sv cancelled (suc i) cands q) t (later q)
      round (true, q) t later = elim (Bool-cases (sv.delete_fails c.fingerprint)) [
        | inl e ↦ rw e (
            failed-Purged cancelled c cands p.world (true, q) (delete_failed c.fingerprint)
              (purge_loop sv cancelled (suc i) cands q) t (later q))
        | inr e ↦ rw e (
            gone-Purged cancelled c cands p.world (true, q)
              (purge_loop sv cancelled (suc i) cands (record q { world = purged_one c q.world })) t
              refl (later (record q { world = purged_one c q.world })))
      ]

  -- `PurgeRepo` counts as dropped, with an event each, candidates of the repository whose template
  -- it has dropped on a server and whose rows it has deleted; all other rows stay. Unless the
  -- context is cancelled, each candidate is counted or has an error.
  pub purge_repo-Purged :
      (cands : List Candidate) (w : World)
      → Purged cancelled cands w (purge_repo sv cancelled (some cands) w)
  unfolding purge_repo
  purge_repo-Purged cands w = purge_loop-Purged 0 cands (record { conns = []; world = w })
