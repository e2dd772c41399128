-- ===== src/Gc/Tests.antt =====
-- Evictions on two rows.
use treeman.Prelude.{ℕ, ltb, true, false, [], ◌∷◌, some, ◌≡◌, refl}
use treeman.Prelude.Text.{codes, bytes_eq}
use treeman.Pins.{is_pinned, count_of}
use treeman.Prelude.Map.{lookup, bytes_key}
use treeman.Gc.{
  prune_row_orphans, find_row_orphans, prune_loop, is_orphan, delete_failed, stopped_before,
}
use treeman.Gc.{
  Candidate, Servers, connected, World, evict_age, evict_candidates, purge_repo, purge_loop, drop,
  delete_rows, get, drop_family, purge_row, delete_snapshot, sweep_by_size, size_loop,
  drop_template, size_row, same_key, has_conn,
}
use treeman.Engine.{one_of, canonical}
use treeman.Gc.Evicted.{Evicted}
use treeman.Gc.Size.{sweep_by_size-Evicted}
use treeman.Gc.Purge.{Purged, purge_repo-Purged}
use treeman.Gc.Safe.{Spared, evict_candidates-Spared}

abbrev first : Candidate
first = record {
  fingerprint = codes "f1";
  engine = codes "tidb";
  template_name = codes "t1";
  source_db = codes "d";
  connection = [];
}

abbrev second : Candidate
second = record {
  fingerprint = codes "f2";
  engine = codes "oracle";
  template_name = codes "t2";
  source_db = codes "d";
  connection = [];
}

abbrev third : Candidate
third = record {
  fingerprint = codes "f3";
  engine = codes "mysql";
  template_name = codes "t3";
  source_db = codes "d";
  connection = [];
}

-- Every call succeeds.
abbrev calm : Servers
calm = record {
  connect = λ k. connected;
  drop_snapshot = λ k t. true;
  drop_matching = λ k t. true;
  exists = λ k t. some true;
  delete_fails = λ fp. false;
}

abbrev flaky : Servers
flaky = record calm { exists = λ k t. some false; delete_fails = λ fp. true }

abbrev stored : World
stored = record { rows = first ∷ second ∷ third ∷ []; deeds = []; events = [] }

pinned_first : is_pinned ((codes "f1", 1) ∷ []) (codes "f1") ≡ true
unfolding is_pinned count_of lookup bytes_eq
pinned_first = refl

evict_candidates-Spared_example : Spared (codes "f1") (first ∷ third ∷ []) stored (
    evict_candidates calm
      (λ i. (codes "f1", 1) ∷ [])
      (λ i. (codes "f1", 1) ∷ [])
      evict_age
      (first ∷ third ∷ [])
      stored)
evict_candidates-Spared_example =
    evict_candidates-Spared calm (λ i. (codes "f1", 1) ∷ []) (λ i. (codes "f1", 1) ∷ []) evict_age
      (first ∷ third ∷ []) stored (codes "f1") (λ i. pinned_first) (λ i. pinned_first)

purge_repo-Purged_example :
    Purged
      (λ i. ltb 1 i)
      (first ∷ second ∷ third ∷ [])
      stored
      (purge_repo calm (λ i. ltb 1 i) (some (first ∷ second ∷ third ∷ [])) stored)
purge_repo-Purged_example =
    purge_repo-Purged calm (λ i. ltb 1 i) (first ∷ second ∷ third ∷ []) stored

purges :
    (purge_repo calm (λ i. false) (some (first ∷ second ∷ [])) stored).2.rows ≡ second ∷ third ∷ []
unfolding purge_repo purge_loop drop drop_family canonical get purge_row delete_snapshot delete_rows
    one_of bytes_eq has_conn same_key
purges = refl

-- The context is done before the second round.
stops :
    (purge_repo calm (λ i. ltb 0 i) (some (first ∷ third ∷ [])) stored).1
    ≡ stopped_before (codes "t3") ∷ []
unfolding purge_repo purge_loop drop drop_family canonical get purge_row delete_snapshot delete_rows
    one_of bytes_eq has_conn same_key
stops = refl

-- The cap is met after the first row, which is not pinned.
shrinks :
    (sweep_by_size calm
      (λ i. [])
      1
      (some (2147483648, (first, 1073741824) ∷ (third, 1) ∷ []))
      stored).rows
    ≡ second ∷ third ∷ []
unfolding sweep_by_size size_loop size_row drop_template drop drop_family canonical get
    delete_snapshot delete_rows one_of is_pinned count_of lookup bytes_eq has_conn same_key
shrinks = refl

sweep_by_size-Evicted_example :
    (left : ℕ) × Evicted calm
      (λ i. [])
      1073741824
      2147483648
      ((first, 1073741824) ∷ (third, 1) ∷ [])
      stored
      (
        left,
        sweep_by_size calm
            (λ i. [])
            1
            (some (2147483648, (first, 1073741824) ∷ (third, 1) ∷ []))
            stored,
      )
sweep_by_size-Evicted_example =
    sweep_by_size-Evicted calm (λ i. []) 0 2147483648 ((first, 1073741824) ∷ (third, 1) ∷ []) stored

-- The template of the first row is gone, and its deletion fails; the third one is pinned.
prunes :
    prune_row_orphans flaky (λ i. (codes "f3", 1) ∷ []) (some (first ∷ second ∷ third ∷ [])) stored
    ≡ ([], delete_failed (codes "f1") ∷ [], stored)
unfolding prune_row_orphans find_row_orphans prune_loop is_orphan delete_snapshot canonical get
    one_of is_pinned count_of lookup bytes_eq has_conn same_key
prunes = refl
