-- ===== src/Gc/Tried.antt =====
-- What a drop does to the world: it keeps the rows, the events and what was done before.
use treeman.Prelude.{
  Bool, true, false, List, [], ◌∷◌, ◌++◌, Option, none, some, ◌⊎◌, ◌≡◌, refl, ◌∙◌, arith,
  Bool-cases, inl, inr,
}
use treeman.Prelude.Text.{codes}
use treeman.Prelude.Map.{bytes_key}
use treeman.Engine.{Family, canonical}
use treeman.Gc.{
  Candidate, ConnKey, Servers, World, Pool, Deed, dropped_template, get, has_conn, dialed, Dial,
  not_configured, refused, connected, drop_on, drop_family, drop,
}
use treeman.Gc.Rows.{drop-rows}
use treeman.Gc.Safe.{get-deeds}

abbrev pub Has : {A : Type 0} → A → List A → Type 0
Has x [] = ⊥
Has x (y ∷ ys) = (x ≡ y) ⊎ Has x ys

-- The template of the candidate was dropped on a server.
abbrev pub Dropped : Candidate → List Deed → Type 0
Dropped c ds = (key : ConnKey) × Has (dropped_template key c.template_name) ds

drop_on-events :
    (sv : Servers) (c : Candidate) (key : ConnKey) (x : Bool × Pool)
    → (drop_on sv c key x).1.world.events ≡ x.1.world.events
drop_on-events sv c key (false, p) = refl
drop_on-events sv c key (true, p) = elim (Bool-cases (sv.drop_snapshot key c.template_name)) [
  | inr e ↦ rw e refl
  | inl e ↦ elim (Bool-cases (sv.drop_matching key (c.template_name ++ codes "_spare"))) [
    | inr f ↦ rw (e, f) refl
    | inl f ↦ rw (e, f) refl
  ]
]

dialed-events :
    (key : ConnKey) (p : Pool) (d : Dial) → (dialed key p d).1.world.events ≡ p.world.events
dialed-events key p not_configured = refl
dialed-events key p refused = refl
dialed-events key p connected = refl

get-events :
    (sv : Servers) (key : ConnKey) (p : Pool) → (get sv key p).1.world.events ≡ p.world.events
unfolding get
get-events sv key p = elim (Bool-cases (has_conn key p.conns)) [
  | inl e ↦ rw e refl
  | inr e ↦ rw e (dialed-events key p (sv.connect key))
]

-- What a drop does to the world.
pub record Tried (c : Candidate) (w : World) (x : Bool × Pool) : Type 0 where
  pub rows : x.1.world.rows ≡ w.rows
  pub events : x.1.world.events ≡ w.events
  pub kept : (d : Deed) → Has d w.deeds → Has d x.1.world.deeds
  pub dropped : x.0 ≡ true → Dropped c x.1.world.deeds

drop_on-kept :
    (sv : Servers) (c : Candidate) (key : ConnKey) (ds : List Deed) (x : Bool × Pool)
    → x.1.world.deeds ≡ ds
    → (d : Deed) → Has d ds
    → Has d (drop_on sv c key x).1.world.deeds
drop_on-kept sv c key ds (false, p) e d h = rw e h
drop_on-kept sv c key ds (true, p) e d h =
    elim (Bool-cases (sv.drop_snapshot key c.template_name)) [
      | inr f ↦ rw (f, e) h
      | inl f ↦ elim (Bool-cases (sv.drop_matching key (c.template_name ++ codes "_spare"))) [
        | inr g ↦ rw (f, g, e) (inr h)
        | inl g ↦ rw (f, g, e) (inr (inr h))
      ]
    ]

drop_on-Dropped :
    (sv : Servers) (c : Candidate) (key : ConnKey) (x : Bool × Pool)
    → (drop_on sv c key x).0 ≡ true
    → Dropped c (drop_on sv c key x).1.world.deeds
drop_on-Dropped sv c key (false, p) h = absurd (ground (arith, h))
drop_on-Dropped sv c key (true, p) h = elim (Bool-cases (sv.drop_snapshot key c.template_name)) [
  | inr f ↦ absurd (ground (arith, h, f))
  | inl f ↦ elim (Bool-cases (sv.drop_matching key (c.template_name ++ codes "_spare"))) [
    | inr g ↦ absurd (ground (arith, h, f, g))
    | inl g ↦ rw (f, g) (key, inr (inl refl))
  ]
]

pub drop-Tried : (sv : Servers) (c : Candidate) (p : Pool) → Tried c p.world (drop sv c p)
unfolding drop drop_family
drop-Tried sv c p = record {
  rows = drop-rows sv c p;
  events = same (canonical c.engine);
  kept = grown (canonical c.engine);
  dropped = made (canonical c.engine);
}
  where
    key : Family → ConnKey
    key fam = record { fam = fam; name = c.connection }

    same : (f : Option Family) → (drop_family sv c p f).1.world.events ≡ p.world.events
    same none = refl
    same (some fam) = drop_on-events sv c (key fam) (get sv (key fam) p) ∙ get-events sv (key fam) p

    grown :
        (f : Option Family) (d : Deed)
        → Has d p.world.deeds
        → Has d (drop_family sv c p f).1.world.deeds
    grown none d h = h
    grown (some fam) d h =
        drop_on-kept sv c (key fam) p.world.deeds (get sv (key fam) p) (get-deeds sv (key fam) p) d
          h

    made :
        (f : Option Family)
        → (drop_family sv c p f).0 ≡ true
        → Dropped c (drop_family sv c p f).1.world.deeds
    made none h = absurd (ground (arith, h))
    made (some fam) h = drop_on-Dropped sv c (key fam) (get sv (key fam) p) h
