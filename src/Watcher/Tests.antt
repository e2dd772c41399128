-- ===== src/Watcher/Tests.antt =====
-- The watcher on concrete inputs.
use treeman.Prelude.{
  ℕ, Bool, true, false, ◌&&◌, ◌==◌, ◌^◌, ◌-◌, List, [], ◌∷◌, ◌++◌, some, ◌≡◌, refl,
}
use treeman.Prelude.Text.{Bytes, codes, bytes_eq, before}
use treeman.Watcher.{
  WatcherPath, Event, Input, event, failure, tick, idle, classify, turn, run, debounce,
}
use treeman.Watcher.Classify.{Once, label_of, first_label, classify-first}
use treeman.Watcher.Burst.{burst-Dispatched, Dispatched, seen, some_event, no_tick}

-- A glob is a prefix here, and a path is relative.
abbrev starts : Bytes → Bytes → Bool
starts [] r = true
starts (c ∷ g) [] = false
starts (c ∷ g) (d ∷ r) = c == d && starts g r

abbrev inputs : List WatcherPath
inputs =
    record { glob = codes "db/"; label = codes "sql"; db_index = 0 }
    ∷ record { glob = codes "db/seed"; label = codes "seed"; db_index = 0 }
    ∷ record { glob = codes "d"; label = []; db_index = 1 }
    ∷ []

classify-first_example :
    Once (classify (λ p. some p) starts (codes "/r") inputs (codes "db/seed.sql"))
    × ((i : ℕ)
        → label_of i (classify (λ p. some p) starts (codes "/r") inputs (codes "db/seed.sql"))
          ≡ first_label starts (codes "db/seed.sql") i inputs)
classify-first_example =
    classify-first (λ p. some p) starts (codes "/r") inputs (codes "db/seed.sql")
      (codes "db/seed.sql") refl

abbrev burst : List Input
burst =
    event (codes "db/b") []
    ∷ failure
    ∷ event (codes "x") []
    ∷ event (codes "d") (codes "db/a" ∷ codes "db/b" ∷ [])
    ∷ []

quiet : no_tick burst ≡ true
unfolding no_tick
quiet = refl

burst-Dispatched_example :
    (let x = run (λ p. some p) starts (codes "/r") inputs burst idle in
      let y = turn (λ p. some p) starts (codes "/r") inputs tick x.0 in
      (x.1 ≡ [])
      × (x.0.armed ≡ some_event y.1)
      × (y.0 ≡ idle)
      × Dispatched (λ p. some p) starts (codes "/r") inputs (λ p. seen p burst) y.1)
burst-Dispatched_example = burst-Dispatched (λ p. some p) starts (codes "/r") inputs burst quiet

paths_of : List Event → List Bytes
paths_of [] = []
paths_of (e ∷ es) = e.path ∷ paths_of es

dispatched_paths :
    paths_of (run (λ p. some p) starts (codes "/r") inputs (burst ++ tick ∷ []) idle).1
    ≡ codes "d" ∷ codes "db/a" ∷ codes "db/b" ∷ []
unfolding run bytes_eq before paths_of
dispatched_paths = refl

window : (debounce 0 ≡ 500000000) × (debounce (2 ^ 64 - 1) ≡ 9223372036854000000)
unfolding debounce
window = (refl, refl)
