-- ===== src/Gc.antt =====
-- internal/snapshot/gc.go: the eviction of cached database templates. The servers are a parameter
-- that answers each call, the context is cancelled only between the rounds of `PurgeRepo`, and log
-- lines are left out.
pub mod Rows
pub mod Safe
pub mod Race
pub mod Tried
pub mod Purge
pub mod Evicted
pub mod Size
pub mod Tests
use treeman.Prelude.{
  map, ℕ, zero, suc, ◌+◌, ◌-◌, ◌*◌, ◌^◌, Bool, true, false, not, ◌&&◌, ◌||◌, List, [], ◌∷◌, ◌++◌,
  Option, none, some, leb, ltb, ◌==◌, if◌then◌else◌, ◌≡◌,
}
use treeman.Pins.{Counts, is_pinned}
use treeman.Engine.{Family, family_number, one_of, canonical}
use treeman.Prelude.Text.{Bytes, codes, bytes_eq}

-- `SnapshotEvictionCandidate`.
pub record Candidate : Type 0 where
  pub fingerprint : Bytes
  pub engine : Bytes
  pub template_name : Bytes
  pub source_db : Bytes
  pub connection : Bytes

-- `connKey`.
pub record ConnKey : Type 0 where
  pub fam : Family
  pub name : Bytes

abbrev pub same_key : ConnKey → ConnKey → Bool
unfolding bytes_eq
same_key a b = family_number a.fam == family_number b.fam && bytes_eq a.name b.name

pub data Dial : Type 0 where
  not_configured refused connected : Dial

-- How the servers answer, and whether the deletion of a row fails.
pub record Servers : Type 0 where
  pub connect : ConnKey → Dial
  pub drop_snapshot : ConnKey → Bytes → Bool
  pub drop_matching : ConnKey → Bytes → Bool
  pub exists : ConnKey → Bytes → Option Bool
  pub delete_fails : Bytes → Bool

-- What was done to a server.
pub data Deed : Type 0 where
  dropped_template dropped_family : ConnKey → Bytes → Deed

pub data Event : Type 0 where
  evict_cap evict_source evict_age evict_size purge prune_orphan : Event

-- The snapshot rows, what was done to the servers, and the events that were written.
pub record World : Type 0 where
  pub rows : List Candidate
  pub deeds : List Deed
  pub events : List (Event × Bytes)

-- The connections of a `dropPool`, and the world.
pub record Pool : Type 0 where
  pub conns : List ConnKey
  pub world : World

-- `DeleteSnapshot` on the rows.
unfoldable pub delete_rows : Bytes → List Candidate → List Candidate
unfolding bytes_eq
delete_rows fp [] = []
delete_rows fp (c ∷ rows) =
    if bytes_eq c.fingerprint fp then delete_rows fp rows else c ∷ delete_rows fp rows

abbrev pub has_conn : ConnKey → List ConnKey → Bool
unfolding same_key
has_conn key [] = false
has_conn key (k ∷ conns) = same_key key k || has_conn key conns

abbrev pub dialed : ConnKey → Pool → Dial → Bool × Pool
dialed key p not_configured = (false, p)
dialed key p refused = (false, p)
dialed key p connected = (true, record p { conns = key ∷ p.conns })

-- `get`: whether there is a connection.
unfoldable pub get : Servers → ConnKey → Pool → Bool × Pool
unfolding has_conn
get sv key p = if has_conn key p.conns then (true, p) else dialed key p (sv.connect key)

abbrev pub record_deed : Deed → Pool → Pool
record_deed d p = record p { world = record p.world { deeds = d ∷ p.world.deeds } }

-- `DropSnapshot`, then `DropMatching` on the spare family.
abbrev pub drop_on : Servers → Candidate → ConnKey → Bool × Pool → Bool × Pool
drop_on sv c key (false, p) = (false, p)
drop_on sv c key (true, p) =
    let spares = c.template_name ++ codes "_spare" in
    let p' = record_deed (dropped_template key c.template_name) p in
    if not (sv.drop_snapshot key c.template_name)
    then (false, p)
    else if not (sv.drop_matching key spares)
    then (false, p')
    else (true, record_deed (dropped_family key spares) p')

abbrev pub drop_family : Servers → Candidate → Pool → Option Family → Bool × Pool
unfolding get
drop_family sv c p none = (false, p)
drop_family sv c p (some fam) =
    let key : ConnKey = record { fam = fam; name = c.connection } in drop_on sv c key (get sv key p)

-- `drop`: whether it succeeded.
unfoldable pub drop : Servers → Candidate → Pool → Bool × Pool
unfolding canonical drop_family
drop sv c p = drop_family sv c p (canonical c.engine)

-- `DropTemplate`, with a pool of its own.
unfoldable pub drop_template : Servers → Candidate → World → Bool × World
unfolding drop
drop_template sv c w =
    let (done, p) = drop sv c (record { conns = []; world = w }) in (done, p.world)

-- `DeleteSnapshot`; a failure leaves the rows.
abbrev pub delete_snapshot : Servers → Bytes → World → World
unfolding delete_rows
delete_snapshot sv fp w =
    if sv.delete_fails fp then w else record w { rows = delete_rows fp w.rows }

abbrev pub write_event : Event → Bytes → World → World
write_event e fp w = record w { events = (e, fp) ∷ w.events }

-- The counts of pins at each check of a pass over the candidates, which are numbered from 0 on.
abbrev pub Readings : Type 0
Readings = ℕ → Counts

-- The drops of `evictCandidates`, from the candidate of a number on: a result is an error or not, and
-- a pinned candidate has none.
unfoldable pub drop_all :
    Servers → Readings → ℕ → List Candidate → Pool → List (Candidate × Bool) × Pool
unfolding drop is_pinned
drop_all sv pins i [] p = ([], p)
drop_all sv pins i (c ∷ cands) p =
    let (done, p1) = if is_pinned (pins i) c.fingerprint then (true, p) else drop sv c p in
    let (results, p2) = drop_all sv pins (suc i) cands p1 in ((c, done) ∷ results, p2)

-- The rows and events that follow.
unfoldable pub forget_all : Servers → Readings → ℕ → Event → List (Candidate × Bool) → World → World
unfolding is_pinned delete_snapshot
forget_all sv pins i e [] w = w
forget_all sv pins i e ((c, done) ∷ results) w = forget_all sv pins (suc i) e results (
    if not done || is_pinned (pins i) c.fingerprint
    then w
    else write_event e c.fingerprint (delete_snapshot sv c.fingerprint w))

-- `evictCandidates`, with the drops in order: the pins are read before each drop, and again before
-- each deletion of a row.
unfoldable pub evict_candidates :
    Servers → Readings → Readings → Event → List Candidate → World → World
unfolding drop_all forget_all
evict_candidates sv before after e cands w =
    let (results, p) = drop_all sv before 0 cands (record { conns = []; world = w }) in
    forget_all sv after 0 e results p.world

-- `EvictExcess`, with what its query returns.
pub evict_excess : Servers → Readings → Readings → Option (List Candidate) → World → World
unfolding evict_candidates
evict_excess sv before after none w = w
evict_excess sv before after (some cands) w = evict_candidates sv before after evict_cap cands w

-- `SweepBySource`, under a number to keep; 0 turns it off.
pub sweep_by_source :
    Servers → Readings → Readings → ℕ → (ℕ → Option (List Candidate)) → World → World
unfolding evict_candidates
sweep_by_source sv before after zero query w = w
sweep_by_source sv before after (suc n) query w = elim (query (suc n)) [
  | none ↦ w
  | some cands ↦ evict_candidates sv before after evict_source cands w
]

-- `SweepByAge`, under a number of days; 0 turns it off.
pub sweep_by_age : Servers → Readings → Readings → ℕ → (ℕ → Option (List Candidate)) → World → World
unfolding evict_candidates
sweep_by_age sv before after zero query w = w
sweep_by_age sv before after (suc n) query w = elim (query (suc n)) [
  | none ↦ w
  | some cands ↦ evict_candidates sv before after evict_age cands w
]

pub data PurgeError : Type 0 where
  list_failed : PurgeError
  drop_failed delete_failed stopped_before : Bytes → PurgeError

-- A round of `PurgeRepo` after the drop.
abbrev pub purge_row : Servers → Candidate → Bool × Pool → Option PurgeError × Pool
unfolding delete_snapshot
purge_row sv c (false, p) = (some (drop_failed c.template_name), p)
purge_row sv c (true, p) =
    if sv.delete_fails c.fingerprint then (some (delete_failed c.fingerprint), p) else (
      none,
      record p {
        world = write_event purge c.fingerprint (delete_snapshot sv c.fingerprint p.world);
      },
    )

abbrev pub tally : Option PurgeError → ℕ × List PurgeError × Pool → ℕ × List PurgeError × Pool
tally none (dropped, errs, p) = (suc dropped, errs, p)
tally (some e) (dropped, errs, p) = (dropped, e ∷ errs, p)

-- The loop of `PurgeRepo` from the round of a number on; `cancelled` tells whether the context is
-- done when a round begins.
unfoldable pub purge_loop :
    Servers → (ℕ → Bool) → ℕ → List Candidate → Pool → ℕ × List PurgeError × Pool
unfolding drop purge_row
purge_loop sv cancelled i [] p = (0, [], p)
purge_loop sv cancelled i (c ∷ cands) p =
    let (e, p1) = purge_row sv c (drop sv c p) in
    let rest = tally e (purge_loop sv cancelled (suc i) cands p1) in
    if cancelled i then (0, stopped_before c.template_name ∷ [], p) else rest

abbrev pub of_pool : ℕ × List PurgeError × Pool → ℕ × List PurgeError × World
of_pool (dropped, errs, p) = (dropped, errs, p.world)

-- `PurgeRepo`, with what `ListSnapshotsForRepo` returns.
pub purge_repo :
    Servers → (ℕ → Bool) → Option (List Candidate) → World → ℕ × List PurgeError × World
unfolding purge_loop
purge_repo sv cancelled none w = (0, list_failed ∷ [], w)
purge_repo sv cancelled (some cands) w =
    of_pool (purge_loop sv cancelled 0 cands (record { conns = []; world = w }))

-- A round of `SweepBySize` after the drop.
abbrev pub size_row : Servers → Candidate → ℕ → ℕ → Bool × World → ℕ × World
unfolding delete_snapshot
size_row sv c size total (false, w) = (total, w)
size_row sv c size total (true, w) =
    (total - size, write_event evict_size c.fingerprint (delete_snapshot sv c.fingerprint w))

-- The loop of `SweepBySize` from the candidate of a number on. A total that falls below 0 is below
-- the cap, as 0 is.
unfoldable pub size_loop : Servers → Readings → ℕ → ℕ → ℕ → List (Candidate × ℕ) → World → ℕ × World
unfolding is_pinned drop_template size_row
size_loop sv pins i cap total [] w = (total, w)
size_loop sv pins i cap total ((c, size) ∷ cands) w =
    let (total', w') =
      if is_pinned (pins i) c.fingerprint
      then (total, w)
      else size_row sv c size total (drop_template sv c w) in
    let rest = size_loop sv pins (suc i) cap total' cands w' in
    if leb total cap then (total, w) else rest

-- `SweepBySize` under a cap of so many GB; `listed` is what the two queries return.
pub sweep_by_size : Servers → Readings → ℕ → Option (ℕ × List (Candidate × ℕ)) → World → World
unfolding size_loop
sweep_by_size sv pins zero listed w = w
sweep_by_size sv pins (suc gb) none w = w
sweep_by_size sv pins (suc gb) (some (total, cands)) w =
    let cap = suc gb * 1024 * 1024 * 1024 in (size_loop sv pins 0 cap total cands w).1

abbrev pub gone : Option Bool → Bool
gone none = false
gone (some there) = not there

abbrev pub orphan_on : Servers → Candidate → ConnKey → Bool × Pool → Bool × Pool
orphan_on sv c key (false, p) = (false, p)
orphan_on sv c key (true, p) = (gone (sv.exists key c.template_name), p)

-- A round of `FindRowOrphans`: whether the template of the row is gone.
abbrev pub is_orphan : Servers → Candidate → Pool → Option Family → Bool × Pool
unfolding get
is_orphan sv c p none = (false, p)
is_orphan sv c p (some fam) =
    let key : ConnKey = record { fam = fam; name = c.connection } in
    orphan_on sv c key (get sv key p)

-- `FindRowOrphans` from the candidate of a number on, with what `ListSnapshotsForRepo` returned.
unfoldable pub find_row_orphans : Servers → Readings → ℕ → List Candidate → Pool → List Candidate
unfolding is_orphan canonical is_pinned
find_row_orphans sv pins i [] p = []
find_row_orphans sv pins i (c ∷ cands) p =
    let (orphan, p') =
      if is_pinned (pins i) c.fingerprint
      then (false, p)
      else is_orphan sv c p (canonical c.engine) in
    let rest = find_row_orphans sv pins (suc i) cands p' in if orphan then c ∷ rest else rest

-- The loop of `PruneRowOrphans`: the rows that are pruned, and those whose deletion failed.
unfoldable pub prune_loop :
    Servers → List Candidate → World → List Candidate × List Candidate × World
unfolding delete_snapshot
prune_loop sv [] w = ([], [], w)
prune_loop sv (o ∷ orphans) w =
    if sv.delete_fails o.fingerprint
    then (let (pruned, errs, w') = prune_loop sv orphans w in (pruned, o ∷ errs, w'))
    else let (pruned, errs, w') =
        prune_loop sv orphans
          (write_event prune_orphan o.fingerprint (delete_snapshot sv o.fingerprint w)) in
      (o ∷ pruned, errs, w')

abbrev pub listed :
    List Candidate × List Candidate × World → List Candidate × List PurgeError × World
listed (pruned, errs, w) = (pruned, map (λ o. delete_failed o.fingerprint) errs, w)

-- `PruneRowOrphans`, with what `ListSnapshotsForRepo` returns.
pub prune_row_orphans :
    Servers → Readings → Option (List Candidate) → World → List Candidate × List PurgeError × World
unfolding find_row_orphans prune_loop
prune_row_orphans sv pins none w = ([], list_failed ∷ [], w)
prune_row_orphans sv pins (some cands) w =
    listed (prune_loop sv (find_row_orphans sv pins 0 cands (record { conns = []; world = w })) w)
