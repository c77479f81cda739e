-- ===== src/Tests/Runtime.antt =====
-- internal/runtime/process/runtime.go: two cells that start, and one that stops.
use hive_worker.Base.{
  Text, ◌≡◌, refl, true, false, some, List, [], ◌∷◌, lookup, insert, contains, nat_eq, text_eq,
  ℕ_discrete, ok,
}
use hive_worker.Go.Text.{codes}
use hive_worker.Runtime.{start, stop, is_running, new_runtime}
use hive_worker.Runtime.Events.{Event, starts, ends, reaped, run, happen, nothing_runs}
use hive_worker.Runtime.Exact.{run-stop, run-restart}

abbrev steps : List Event
steps = starts (codes "a") false 5 ∷ starts (codes "a") false 6 ∷ starts (codes "b") false 7 ∷ []

one_process : (run steps nothing_runs).alive ≡ 1 ∷ 0 ∷ []
unfolding run happen start lookup new_runtime text_eq ℕ_discrete insert
one_process = refl

awaited : lookup 1 (run steps nothing_runs).waiting ≡ some (codes "b")
unfolding run happen start lookup new_runtime text_eq ℕ_discrete insert
awaited = refl

run-stop_example :
    (id : Text) × (lookup 1 (run steps nothing_runs).waiting ≡ some id)
    × (stop id (run steps nothing_runs).runtime ≡ ok 1)
    × (is_running id (run steps nothing_runs).runtime ≡ true)
unfolding ℕ_discrete
run-stop_example = run-stop steps 1 alive
  where
    alive : contains 1 (run steps nothing_runs).alive ≡ true
    alive = rw one_process refl

run-restart_example :
    (is_running (codes "b") (run (ends 1 ∷ reaped 1 ∷ []) (run steps nothing_runs)).runtime ≡ false)
    × ((start
          (codes "b")
          false
          2
          9
          (run (ends 1 ∷ reaped 1 ∷ []) (run steps nothing_runs)).runtime).1
        ≡ ok tt)
run-restart_example = run-restart steps 1 (codes "b") 2 9 awaited
