-- ===== src/Gc/Safe.antt =====
-- Pinned snapshots survive every sweep.
use treeman.Prelude.{
  ℕ, suc, Bool, true, false, not, ◌||◌, List, [], ◌∷◌, ◌++◌, Option, none, some, if◌then◌else◌,
  append_assoc, subst, All, All-append, ◌⊎◌, ◌≡◌, refl, sym, ap, ◌∙◌, Bool-cases, inl, inr,
}
use treeman.Prelude.Text.{Bytes, codes, bytes_eq}
use treeman.Pins.{Counts, is_pinned}
use treeman.Prelude.Map.{bytes_key}
use treeman.Gc.{
  Readings, Deed, dropped_template, dropped_family, Candidate, ConnKey, Dial, not_configured,
  refused, connected, Servers, World, Pool, delete_rows, get, dialed, has_conn, drop_on,
  drop_family, drop, delete_snapshot, write_event, Event, drop_all, forget_all, evict_candidates,
}
use treeman.Engine.{Family, canonical}
use treeman.Gc.Rows.{rows_of, rows_of-delete_rows, apart, drop-rows, if-rows}

drop_all-rows :
    (sv : Servers) (pins : Readings) (i : ℕ) (cands : List Candidate) (p : Pool)
    → (drop_all sv pins i cands p).1.world.rows ≡ p.world.rows
unfolding drop_all
drop_all-rows sv pins i [] p = refl
drop_all-rows sv pins i (c ∷ cands) p =
    let x : Bool × Pool = if is_pinned (pins i) c.fingerprint then (true, p) else drop sv c p in
    drop_all-rows sv pins (suc i) cands x.1
    ∙ if-rows (is_pinned (pins i) c.fingerprint) (true, p) (drop sv c p) p.world.rows refl
        (drop-rows sv c p)

-- Deleting a row that is not pinned.
delete_snapshot-rows_of :
    (sv : Servers) (pins : Counts) (fp other : Bytes) (w : World)
    → is_pinned pins fp ≡ true
    → is_pinned pins other ≡ false
    → rows_of fp (delete_snapshot sv other w).rows ≡ rows_of fp w.rows
unfolding delete_snapshot
delete_snapshot-rows_of sv pins fp other w h n = elim (Bool-cases (sv.delete_fails other)) [
  | inl e ↦ rw e refl
  | inr e ↦ rw e (rows_of-delete_rows fp other w.rows (apart pins fp other h n))
]

forget_all-rows_of :
    (sv : Servers) (pins : Readings) (i : ℕ) (e : Event) (results : List (Candidate × Bool))
    (w : World) (fp : Bytes)
    → ((k : ℕ) → is_pinned (pins k) fp ≡ true)
    → rows_of fp (forget_all sv pins i e results w).rows ≡ rows_of fp w.rows
unfolding forget_all
forget_all-rows_of sv pins i e [] w fp h = refl
forget_all-rows_of sv pins i e ((c, done) ∷ results) w fp h =
    forget_all-rows_of sv pins (suc i) e results _ fp h
    ∙ go done (is_pinned (pins i) c.fingerprint) refl
  where
    go :
        (d b : Bool)
        → is_pinned (pins i) c.fingerprint ≡ b
        → rows_of fp
            (if not d || b
              then w
              else write_event e c.fingerprint (delete_snapshot sv c.fingerprint w)).rows
          ≡ rows_of fp w.rows
    go false b n = refl
    go true true n = refl
    go true false n = delete_snapshot-rows_of sv (pins i) fp c.fingerprint w (h i) n

-- What is done to the servers to drop the template of a candidate.
abbrev pub Drops : Candidate → Deed → Type 0
Drops c (dropped_template key name) = name ≡ c.template_name
Drops c (dropped_family key name) = name ≡ c.template_name ++ codes "_spare"

-- It drops the template of a candidate of another fingerprint.
abbrev pub DropsOther : Bytes → List Candidate → Deed → Type 0
DropsOther fp [] d = ⊥
DropsOther fp (c ∷ cands) d =
    ((bytes_eq c.fingerprint fp ≡ false) × Drops c d) ⊎ DropsOther fp cands d

-- What is done between two worlds.
pub record Deeds (P : Deed → Type 0) (before after : List Deed) : Type 0 where
  pub new : List Deed
  pub added : after ≡ new ++ before
  pub each : All P new

none-Deeds : (P : Deed → Type 0) (ds : List Deed) → Deeds P ds ds
none-Deeds P ds = record { new = []; added = refl; each = tt }

then-Deeds : (P : Deed → Type 0) (a b c : List Deed) → Deeds P a b → Deeds P b c → Deeds P a c
then-Deeds P a b c f g = record {
  new = g.new ++ f.new;
  added = g.added ∙ ap (λ ds. g.new ++ ds) f.added ∙ sym (append_assoc g.new f.new a);
  each = All-append P g.new f.new g.each f.each;
}

weaker-Deeds :
    (P Q : Deed → Type 0) (a b : List Deed) → ((d : Deed) → P d → Q d) → Deeds P a b → Deeds Q a b
weaker-Deeds P Q a b k f = record { new = f.new; added = f.added; each = go f.new f.each }
  where
    go : (ds : List Deed) → All P ds → All Q ds
    go [] h = tt
    go (d ∷ ds) (h, hs) = (k d h, go ds hs)

dialed-deeds :
    (key : ConnKey) (p : Pool) (d : Dial) → (dialed key p d).1.world.deeds ≡ p.world.deeds
dialed-deeds key p not_configured = refl
dialed-deeds key p refused = refl
dialed-deeds key p connected = refl

pub get-deeds :
    (sv : Servers) (key : ConnKey) (p : Pool) → (get sv key p).1.world.deeds ≡ p.world.deeds
unfolding get
get-deeds sv key p = elim (Bool-cases (has_conn key p.conns)) [
  | inl e ↦ rw e refl
  | inr e ↦ rw e (dialed-deeds key p (sv.connect key))
]

drop_on-Deeds :
    (sv : Servers) (c : Candidate) (key : ConnKey) (x : Bool × Pool)
    → Deeds (Drops c) x.1.world.deeds (drop_on sv c key x).1.world.deeds
drop_on-Deeds sv c key (false, p) = none-Deeds (Drops c) p.world.deeds
drop_on-Deeds sv c key (true, p) =
    let spares = c.template_name ++ codes "_spare" in
    elim (Bool-cases (sv.drop_snapshot key c.template_name)) [
      | inr e ↦ rw e (none-Deeds (Drops c) p.world.deeds)
      | inl e ↦ elim (Bool-cases (sv.drop_matching key spares)) [
        | inr f ↦
            rw (e, f)
              (record {
                new = dropped_template key c.template_name ∷ [];
                added = refl;
                each = (refl, tt);
              })
        | inl f ↦
            rw (e, f)
              (record {
                new = dropped_family key spares ∷ dropped_template key c.template_name ∷ [];
                added = refl;
                each = (refl, (refl, tt));
              })
      ]
    ]

-- A drop touches the template of its candidate and no other.
drop-Deeds :
    (sv : Servers) (c : Candidate) (p : Pool)
    → Deeds (Drops c) p.world.deeds (drop sv c p).1.world.deeds
unfolding drop drop_family
drop-Deeds sv c p = go (canonical c.engine)
  where
    go : (f : Option Family) → Deeds (Drops c) p.world.deeds (drop_family sv c p f).1.world.deeds
    go none = none-Deeds (Drops c) p.world.deeds
    go (some fam) =
        let key : ConnKey = record { fam = fam; name = c.connection } in
        subst (λ ds. Deeds (Drops c) ds (drop_on sv c key (get sv key p)).1.world.deeds)
          (get-deeds sv key p) (drop_on-Deeds sv c key (get sv key p))

module _ (sv : Servers) (fp : Bytes) where
  drop_all-Deeds :
      (pins : Readings) (i : ℕ) (cands : List Candidate) (p : Pool)
      → ((k : ℕ) → is_pinned (pins k) fp ≡ true)
      → Deeds (DropsOther fp cands) p.world.deeds (drop_all sv pins i cands p).1.world.deeds
  unfolding drop_all
  drop_all-Deeds pins i [] p h = none-Deeds (DropsOther fp []) p.world.deeds
  drop_all-Deeds pins i (c ∷ cands) p h =
      let later = λ (q : Pool).
        weaker-Deeds (DropsOther fp cands) (DropsOther fp (c ∷ cands)) q.world.deeds
          (drop_all sv pins (suc i) cands q).1.world.deeds (λ d k. inr k)
          (drop_all-Deeds pins (suc i) cands q h) in
      elim (Bool-cases (is_pinned (pins i) c.fingerprint)) [
        | inl e ↦ rw e (later p)
        | inr e ↦ rw e (
            then-Deeds (DropsOther fp (c ∷ cands)) p.world.deeds (drop sv c p).1.world.deeds _
              (weaker-Deeds (Drops c) (DropsOther fp (c ∷ cands)) p.world.deeds
                (drop sv c p).1.world.deeds
                (λ d k. inl (apart (pins i) fp c.fingerprint (h i) e, k)) (drop-Deeds sv c p))
              (later (drop sv c p).1))
      ]

  forget_all-deeds :
      (pins : Readings) (i : ℕ) (e : Event) (results : List (Candidate × Bool)) (w : World)
      → (forget_all sv pins i e results w).deeds ≡ w.deeds
  unfolding forget_all delete_snapshot
  forget_all-deeds pins i e [] w = refl
  forget_all-deeds pins i e ((c, done) ∷ results) w =
      forget_all-deeds pins (suc i) e results _
      ∙ go (not done || is_pinned (pins i) c.fingerprint) (sv.delete_fails c.fingerprint)
    where
      go :
          (b f : Bool)
          → (if b
              then w
              else write_event e c.fingerprint
                  (if f then w else record w { rows = delete_rows c.fingerprint w.rows })).deeds
            ≡ w.deeds
      go true f = refl
      go false true = refl
      go false false = refl

-- A fingerprint is spared: its rows are as before, and on the servers nothing was dropped but the
-- templates of candidates of other fingerprints.
pub record Spared (fp : Bytes) (cands : List Candidate) (before after : World) : Type 0 where
  pub rows : rows_of fp after.rows ≡ rows_of fp before.rows
  pub deeds : Deeds (DropsOther fp cands) before.deeds after.deeds

-- A fingerprint that is pinned at every check of an eviction, while others are pinned and released
-- at will, keeps its rows, and the eviction drops no template but those of the candidates of other
-- fingerprints, however the servers answer.
pub evict_candidates-Spared :
    (sv : Servers) (before after : Readings) (e : Event) (cands : List Candidate) (w : World)
    (fp : Bytes)
    → ((k : ℕ) → is_pinned (before k) fp ≡ true)
    → ((k : ℕ) → is_pinned (after k) fp ≡ true)
    → Spared fp cands w (evict_candidates sv before after e cands w)
unfolding evict_candidates
evict_candidates-Spared sv before after e cands w fp h k =
    let p : Pool = record { conns = []; world = w } in
    let r = drop_all sv before 0 cands p in
    record {
      rows =
          forget_all-rows_of sv after 0 e r.0 r.1.world fp k
          ∙ ap (rows_of fp) (drop_all-rows sv before 0 cands p);
      deeds =
          subst (Deeds (DropsOther fp cands) w.deeds)
            (sym (forget_all-deeds sv fp after 0 e r.0 r.1.world))
            (drop_all-Deeds sv fp before 0 cands p h);
    }
