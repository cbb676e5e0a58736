-- ===== src/Events/Delivery.antt =====
-- ptraf/src/probe.rs: what the tasks that read the events of the kernel hand over.
use ptraf.Shared.{
  ℕ, ◌≤◌, ◌≡◌, refl, sym, ap, ◌∙◌, Option, none, some, List, [], ◌∷◌, ◌++◌, append_assoc,
  append-nil, map, length, All, Option-cases, inl, inr, arith,
}
use ptraf.Shared.Results.{Result, ok, err}
use ptraf.Common.Types.{SockMsgEvent}
use ptraf.Events.{EventIter, new}
use ptraf.Events.Order.{drained, drained_lem}
use ptraf.Events.Reading.{Read, TaskEnd, waiting, failed, take, slice, task, spawn_all, events}

-- All that an iterator yields.
abbrev pub contents : EventIter → List SockMsgEvent
contents it = drained (length it.buf) it

contents-new : (b : List SockMsgEvent) → contents (new b) ≡ b
unfolding new
contents-new b = (drained_lem [] b (length b) (omega arith)).0

-- The answers of the kernel after the good ones: an error and whatever follows, or none.
abbrev pub ending : {E : Type 0} → Option E → List (Result Read E) → List (Result Read E)
ending none rest = []
ending (some e) rest = err e ∷ rest

abbrev pub end_of : {E : Type 0} → Option E → TaskEnd E
end_of none = waiting
end_of (some e) = failed e

slice_lem : (n : ℕ) (b : List SockMsgEvent) → n ≤ length b → slice n b ≡ some (take n b)
unfolding slice
slice_lem n b h = ground arith

task-cons :
    {E : Type 0} (r : Read) (xs : List (Result Read E)) (b : List SockMsgEvent)
    → slice r.read r.buffers ≡ some b
    → task (ok r ∷ xs) ≡ (new b ∷ (task xs).0, (task xs).1)
unfolding task
task-cons r xs b h = rw (h, task) refl

-- With answers of the kernel that fill no more buffers than there are, up to an error if there is
-- one: the task does not panic. It hands over one iterator for each answer before the error, which
-- yields the events of the filled buffers, each once and in order, and ends with that error; if
-- there is none it waits for more.
pub task_lem :
    {E : Type 0} (good : List Read) (o : Option E) (rest : List (Result Read E))
    → All (λ r. r.read ≤ length r.buffers) good
    → (map contents (task (map ok good ++ ending o rest)).0
        ≡ map (λ (r : Read). take r.read r.buffers) good)
      × ((task (map ok good ++ ending o rest)).1 ≡ end_of o)
unfolding task
task_lem [] none rest h = (refl, refl)
task_lem [] (some e) rest h = (refl, refl)
task_lem {E} (r ∷ good) o rest h =
    let (same, end') = task_lem good o rest h.1 in
    let b = take r.read r.buffers in
    let one = task-cons r (map ok good ++ ending o rest) b (slice_lem r.read r.buffers h.0) in
    (
      ap (λ (x : List EventIter × TaskEnd E). map contents x.0) one
          ∙ ap (λ l. contents (new b) ∷ l) same
          ∙ ap (λ c. c ∷ map (λ (r : Read). take r.read r.buffers) good) (contents-new b),
      ap (λ (x : List EventIter × TaskEnd E). x.1) one ∙ end',
    )

module _ {E : Type 0} (open_buffer : ℕ → Option E) where
  -- The first error of the processors' buffers.
  abbrev pub first_error : List ℕ → Option E
  first_error [] = none
  first_error (cpu ∷ cpus) =
      let rest = first_error cpus in elim (open_buffer cpu) [ some e ↦ some e | none ↦ rest ]

  abbrev pub unless : Option E → List ℕ → Result (List ℕ) E
  unless none cpus = ok cpus
  unless (some e) cpus = err e

  spawn_all_lem :
      (tasks cpus : List ℕ)
      → spawn_all open_buffer tasks cpus ≡ unless (first_error cpus) (tasks ++ cpus)
  unfolding spawn_all
  spawn_all_lem tasks [] = ap ok (sym (append-nil tasks))
  spawn_all_lem tasks (cpu ∷ cpus) = elim (Option-cases (open_buffer cpu)) [
    | inr (e, h) ↦ rw (h, spawn_all, first_error) refl
    | inl h ↦
        rw (h, spawn_all, first_error)
          (spawn_all_lem (tasks ++ cpu ∷ []) cpus
            ∙ ap (unless (first_error cpus)) (append_assoc tasks (cpu ∷ []) cpus))
  ]

  -- Once the map is there and the processors are known, there is one task for each processor, in
  -- their order, or the first error of a buffer that cannot be opened.
  pub events_lem :
      (cpus : List ℕ) → events open_buffer none (ok cpus) ≡ unless (first_error cpus) cpus
  unfolding events
  events_lem cpus = spawn_all_lem [] cpus
