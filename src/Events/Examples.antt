-- ===== src/Events/Examples.antt =====
-- The theorem on the tasks that read events, for two answers of the kernel and an error.
use ptraf.Shared.{ℕ, ◌≡◌, some, List, [], ◌∷◌, ◌++◌, map, arith}
use ptraf.Shared.Results.{ok}
use ptraf.Store.Examples.{received, sent}
use ptraf.Events.Reading.{Read, failed, take, task}
use ptraf.Events.Delivery.{contents, ending, task_lem}

-- Two of three buffers are filled, and then all of them.
abbrev reads : List Read
reads =
    record { buffers = sent ∷ received ∷ received ∷ []; read = 2 }
    ∷ record { buffers = received ∷ sent ∷ received ∷ []; read = 3 }
    ∷ []

abbrev error : ℕ
error = 5

task_lem_example :
    (map contents (task (map ok reads ++ ending (some error) [])).0
      ≡ map (λ (r : Read). take r.read r.buffers) reads)
    × ((task (map ok reads ++ ending (some error) [])).1 ≡ failed error)
task_lem_example = task_lem reads (some error) [] (omega arith, (omega arith, tt))
