-- ===== src/Events/Reading.antt =====
-- ptraf/src/probe.rs, `ProbeProgram::events`: the tasks that read the events of the kernel and hand
-- them over. The answers of the kernel and of aya come from outside.
use ptraf.Shared.{ℕ, zero, suc, Option, none, some, List, [], ◌∷◌, ◌++◌, length, leb, if◌then◌else◌}
use ptraf.Shared.Results.{Result, ok, err}
use ptraf.Common.Types.{SockMsgEvent}
use ptraf.Events.{EventIter, new}

-- What `read_events` leaves in the buffers of a task, and how many of them it has filled.
pub record Read : Type 0 where
  pub buffers : List SockMsgEvent
  pub read : ℕ

-- How a task stands after the answers that it has had: it waits, or it has ended.
pub data TaskEnd (E : Type 0) : Type 0 where
  waiting : TaskEnd E
  failed : E → TaskEnd E
  panicked : TaskEnd E

abbrev pub take : {A : Type 0} → ℕ → List A → List A
take zero xs = []
take (suc n) [] = []
take (suc n) (x ∷ xs) = x ∷ take n xs

-- `&buffers[0..n]`, which panics beyond the end.
unfoldable pub slice : ℕ → List SockMsgEvent → Option (List SockMsgEvent)
slice n buffers = if leb n (length buffers) then some (take n buffers) else none

module _ {E : Type 0} where
  -- The body of a task: the iterators that it hands over, and how it ends.
  unfoldable pub task : List (Result Read E) → List EventIter × TaskEnd E
  unfolding slice new
  task [] = ([], waiting)
  task (err e ∷ rest) = ([], failed e)
  task (ok r ∷ rest) = elim (slice r.read r.buffers) [
    | none ↦ ([], panicked)
    | some events ↦ (new events ∷ (task rest).0, (task rest).1)
  ]

  module _ (open_buffer : ℕ → Option E) where
    -- The loop over the processors: a buffer is opened for each, and a task spawned for it.
    unfoldable pub spawn_all : List ℕ → List ℕ → Result (List ℕ) E
    spawn_all tasks [] = ok tasks
    spawn_all tasks (cpu ∷ cpus) = elim (open_buffer cpu) [
      | some e ↦ err e
      | none ↦ spawn_all (tasks ++ cpu ∷ []) cpus
    ]

    -- The map of the events, the processors, and the set of the tasks that were spawned.
    unfoldable pub events : Option E → Result (List ℕ) E → Result (List ℕ) E
    unfolding spawn_all
    events (some e) cpus = err e
    events none (err e) = err e
    events none (ok cpus) = spawn_all [] cpus
