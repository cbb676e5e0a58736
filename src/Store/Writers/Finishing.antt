-- ===== src/Store/Writers/Finishing.antt =====
-- ptraf/src/store.rs: that the tasks that store batches and view segments come to an end.
use ptraf.Shared.{
  ℕ, zero, suc, ◌+◌, ◌≤◌, ◌<◌, ◌≡◌, refl, ap, ◌∙◌, ◌⊎◌, inl, inr, List, [], ◌∷◌, ◌++◌, length, All,
  arith,
}
use ptraf.Std.Bytes.{Endian}
use ptraf.Store.Dash.{Dash}
use ptraf.Store.Segment.Threads.{ops_of}
use ptraf.Store.Series.{Store}
use ptraf.Store.Series.Invariant.{IsStore}
use ptraf.Store.Writers.{
  Phase, starting, filling, rereading, writing, opening, viewing, finished, System, Move, looked,
  outdated, filled, reread, changed, released, opened, viewed, closed, Step, moved, Reach, here,
  next,
}
use ptraf.Store.Writers.Invariant.{
  IsSystem, holds, holders, Step-IsSystem, Reach-IsSystem, Finished,
}
use ptraf.Store.Writers.Progress.{progress}

-- The steps that a task has left, at most.
abbrev pub work : Endian → Phase → ℕ
work e (starting ts ms) = 4 + length (ops_of e ms)
work e (filling t ms) = 3 + length (ops_of e ms)
work e (rereading ms) = 2 + length (ops_of e ms)
work e (writing os) = 1 + length os
work e (opening k) = 2 + k
work e (viewing k) = 1 + k
work e finished = 0

abbrev pub works : Endian → List Phase → ℕ
works e [] = 0
works e (p ∷ ps) = work e p + works e ps

works-append : (e : Endian) (ps qs : List Phase) → works e (ps ++ qs) ≡ works e ps + works e qs
works-append e [] qs = omega arith
works-append e (p ∷ ps) qs = let h = works-append e ps qs in omega (arith, h)

holders-Finished : (ps : List Phase) → All Finished ps → holders ps ≡ 0
holders-Finished [] h = refl
holders-Finished (p ∷ ps) h =
    let rest = holders-Finished ps h.1 in let one = ap holds h.0 in omega arith

module _ {d : Dash} (e : Endian) where
  Move-work : {s s' : Store d} {n n' : ℕ} {p q : Phase} → Move e s n p s' n' q → work e q < work e p
  Move-work (looked ts t ms e now) = omega arith
  Move-work (outdated ts t ms e old) = omega arith
  Move-work (filled t ms q none' e) = omega arith
  Move-work (reread ms) = omega arith
  Move-work (changed o os) = omega arith
  Move-work (released m e) = omega arith
  Move-work (opened k) = omega arith
  Move-work (viewed k) = omega arith
  Move-work (closed m e) = omega arith

  Step-works : {u v : System d} → Step e u v → works e v.tasks < works e u.tasks
  Step-works {u} {v} (moved before after p q was is m) =
      let a = ap (works e) was ∙ works-append e before (p ∷ after) in
      let b = ap (works e) is ∙ works-append e before (q ∷ after) in
      let c = Move-work m in omega arith

  -- The number of steps of a run.
  abbrev pub steps : {u v : System d} → Reach e u v → ℕ
  steps here = 0
  steps (next r s) = suc (steps r)

  steps-works : (u v : System d) (r : Reach e u v) → steps r + works e v.tasks ≤ works e u.tasks
  steps-works u v here = omega arith
  steps-works u v (next r s) = let ih = steps-works u _ r in let one = Step-works s in omega arith

  -- From a state with the invariant no run has more steps than the tasks have work at its start, in
  -- whatever order they are made, and at its end either every task is finished, with the invariant
  -- of the store and nobody at the lock, or some task can make a step: so every run that is
  -- continued as long as it can be ends after so many steps at most, with all tasks finished.
  pub steps_end :
      (u v : System d) (r : Reach e u v)
      → IsSystem u
      → (steps r ≤ works e u.tasks)
        × ((All Finished v.tasks × IsStore v.store × (v.readers ≡ 0))
            ⊎ ((w : System d) × Step e v w × (steps r < works e u.tasks)))
  steps_end u v r h =
      let k = Reach-IsSystem e r h in
      let bound = steps-works u v r in
      (
        omega arith,
        elim (progress e v k) [
          | inl end' ↦ inl (end', k.store, k.readers ∙ holders-Finished v.tasks end')
          | inr (w, s) ↦ inr (w, s, (let less = Step-works s in omega arith))
        ],
      )

  append_step : {u v w : System d} → Step e u v → Reach e v w → Reach e u w
  append_step s here = next here s
  append_step s (next r t) = next (append_step s r) t

  finishes_within :
      (n : ℕ) (u : System d)
      → IsSystem u
      → works e u.tasks ≤ n
      → (v : System d) × Reach e u v × IsSystem v × All Finished v.tasks
  finishes_within zero u h b = elim (progress e u h) [
    | inl end' ↦ (u, here, h, end')
    | inr (v, s) ↦ absurd (spent (Step-works s) b)
  ]
    where
      spent : {m k : ℕ} → m < k → k ≤ 0 → ⊥
      spent h b = omega arith
  finishes_within (suc n) u h b = elim (progress e u h) [
    | inl end' ↦ (u, here, h, end')
    | inr (v, s) ↦
        let (w, r, k, f) = finishes_within n v (Step-IsSystem e s h) (less (Step-works s) b) in
        (w, append_step s r, k, f)
  ]
    where
      less : {m k : ℕ} → m < k → k ≤ suc n → m ≤ n
      less h b = omega arith

  -- From any state with the invariant the tasks can all finish: then each batch has been stored,
  -- nobody holds the lock, and the store has its invariant.
  pub finishes :
      (u : System d)
      → IsSystem u
      → (v : System d) × Reach e u v × IsStore v.store × (v.readers ≡ 0) × All Finished v.tasks
  finishes u h =
      let (v, r, k, f) = finishes_within (works e u.tasks) u h (omega arith) in
      (v, r, k.store, k.readers ∙ holders-Finished v.tasks f, f)
