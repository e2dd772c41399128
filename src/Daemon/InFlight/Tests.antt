-- ===== src/Daemon/InFlight/Tests.antt =====
-- Requests that are queued on a finalize, and what its release hands back.
use treeman.Prelude.{ℤ, pos, false, List, [], ◌∷◌, ◌≡◌, refl}
use treeman.Prelude.Text.{Bytes, codes, bytes_eq}
use treeman.Prelude.Map.{lookup, insert, delete, bytes_key, int_key}
use treeman.Daemon.InFlight.{
  WatchRerun, InFlight, mark_finalize, mark_finalize_or_queue, queue_on, unmark_finalize,
  handed_back, sorted_reruns, insert_by_index, add_watch, queue_watch, is_finalize_in_flight,
}
use treeman.Daemon.InFlight.Queue.{watch, Answers, queue}
use treeman.Daemon.InFlight.HandBack.{
  Act, request, unmark, act, acts, requests_on, unmark_finalize-Answers,
}

abbrev idle : InFlight
idle = record { teardowns = []; finalizes = []; creates = [] }

abbrev rerun : ℤ → Bytes → WatchRerun
rerun i id = record { repo_path = codes "/r"; db_index = i; env = []; run_id = id }

-- Two databases change, one of them twice, while another worktree is released; latest first.
abbrev busy : List Act
busy =
    request 4 (codes "/w") (watch (rerun (pos 0) (codes "c")))
    ∷ unmark (codes "/v")
    ∷ request 3 (codes "/w") (watch (rerun (pos 1) (codes "b")))
    ∷ request 2 (codes "/w") (watch (rerun (pos 0) (codes "a")))
    ∷ []

idle_start : is_finalize_in_flight (codes "/w") idle ≡ false
unfolding is_finalize_in_flight lookup
idle_start = refl

elsewhere : bytes_eq (codes "/w") (codes "/v") ≡ false
unfolding bytes_eq
elsewhere = refl

unmark_finalize-Answers_example :
    Answers
      (requests_on (codes "/w") busy)
      (unmark_finalize (codes "/w") (acts busy (mark_finalize 1 (codes "/w") idle).1)).0
unmark_finalize-Answers_example =
    unmark_finalize-Answers 1 (codes "/w") idle busy idle_start (tt, (elsewhere, (tt, (tt, tt))))

back :
    (unmark_finalize (codes "/w") (acts busy (mark_finalize 1 (codes "/w") idle).1)).0.watch
    ≡ rerun (pos 0) (codes "c") ∷ rerun (pos 1) (codes "b") ∷ []
unfolding unmark_finalize acts act mark_finalize mark_finalize_or_queue queue_on handed_back
    sorted_reruns insert_by_index add_watch queue_watch lookup insert delete bytes_eq queue
back = refl
