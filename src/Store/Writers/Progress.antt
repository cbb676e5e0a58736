-- ===== src/Store/Writers/Progress.antt =====
-- ptraf/src/store.rs: that the tasks that store batches do not block one another.
use ptraf.Shared.{
  ℕ, zero, suc, ◌+◌, ◌-◌, ◌%◌, ◌≤◌, ◌≡◌, refl, ap, ◌∙◌, subst, ◌⊎◌, inl, inr, Bool, true, false,
  List, [], ◌∷◌, ◌++◌, back, All, Bool-cases, arith,
}
use ptraf.Std.Bytes.{Endian}
use ptraf.Clock.Trunc.{trunc-eq-some}
use ptraf.Store.Dash.{Dash}
use ptraf.Store.Segment.Threads.{ops_of}
use ptraf.Store.Series.{Store, is_current}
use ptraf.Store.Series.Invariant.{IsStore}
use ptraf.Store.Writers.{
  Phase, starting, filling, rereading, writing, opening, viewing, finished, System, Move, looked,
  outdated, filled, reread, changed, released, opened, viewed, closed, Step, moved,
}
use ptraf.Store.Writers.Invariant.{
  IsSystem, Relies, holds, holders, holders-append, All-at, fill-advanced, Finished,
}

module _ {ℓ} {A : Type ℓ} where
  -- An element of a list that passes a test, with its place, or none.
  find_place :
      (f : A → Bool) (xs : List A)
      → ((before : List A) × (x : A) × (after : List A) × (xs ≡ before ++ x ∷ after) × (f x ≡ true))
        ⊎ All (λ x. f x ≡ false) xs
  find_place f [] = inr tt
  find_place f (x ∷ xs) = elim (Bool-cases (f x)) [
    | inl yes' ↦ inl ([], x, xs, refl, yes')
    | inr no' ↦ elim (find_place f xs) [
      | inl (before, y, after, is, yes') ↦ inl (x ∷ before, y, after, ap (λ l. x ∷ l) is, yes')
      | inr none' ↦ inr (no', none')
    ]
  ]

-- A task that is neither finished nor waiting for the write lock, and one that is waiting for it.
abbrev is_ready : Phase → Bool
is_ready (starting ts ms) = true
is_ready (filling t ms) = false
is_ready (rereading ms) = true
is_ready (writing os) = true
is_ready (opening k) = true
is_ready (viewing k) = true
is_ready finished = false

abbrev is_filling : Phase → Bool
is_filling (filling t ms) = true
is_filling _ = false

no_holders : (ps : List Phase) → All (λ p. is_ready p ≡ false) ps → holders ps ≡ 0
no_holders [] h = refl
no_holders (p ∷ ps) h = let rest = no_holders ps h.1 in let one = none p h.0 in omega arith
  where
    none : (p : Phase) → is_ready p ≡ false → holds p ≡ 0
    none (writing os) h = cc
    none (starting ts ms) h = refl
    none (filling ts ms) h = refl
    none (rereading ms) h = refl
    none (opening k) h = refl
    none (viewing k) h = cc
    none finished h = refl

All-Finished :
    (ps : List Phase)
    → All (λ p. is_ready p ≡ false) ps
    → All (λ p. is_filling p ≡ false) ps
    → All Finished ps
All-Finished [] h k = tt
All-Finished (p ∷ ps) h k = (one p h.0 k.0, All-Finished ps h.1 k.1)
  where
    one : (p : Phase) → is_ready p ≡ false → is_filling p ≡ false → Finished p
    one p h k = ground arith

module _ {d : Dash} (e : Endian) where
  CanMove : Store d → ℕ → Phase → Type 0
  CanMove s n p = (s' : Store d) × (n' : ℕ) × (q : Phase) × Move e s n p s' n' q

  ready_moves :
      (s : Store d) (n : ℕ) (p : Phase)
      → IsStore s
      → Relies s p
      → holds p ≤ n
      → is_ready p ≡ true
      → CanMove s n p
  unfolding CanMove
  ready_moves s n (starting ts ms) v r h y =
      let t = trunc-eq-some ts s.window r v.window_pos v.window_fits in
      elim (Bool-cases (is_current d (ts - ts % s.window) (back s.segments))) [
        | inl now ↦ (s, suc n, writing (ops_of e ms), looked ts _ ms t now)
        | inr old ↦ (s, n, filling (ts - ts % s.window) ms, outdated ts _ ms t old)
      ]
  ready_moves s n (filling t ms) v r h y = cc
  ready_moves s n (rereading ms) v r h y = (s, suc n, writing (ops_of e ms), reread ms)
  ready_moves s n (writing (o ∷ os)) v r h y = (_, n, writing os, changed o os)
  ready_moves s zero (writing []) v r h y = absurd (omega arith)
  ready_moves s (suc n) (writing []) v r h y = (s, n, finished, released n refl)
  ready_moves s n (opening k) v r h y = (s, suc n, viewing k, opened k)
  ready_moves s n (viewing (suc k)) v r h y = (s, n, viewing k, viewed k)
  ready_moves s zero (viewing zero) v r h y = absurd (omega arith)
  ready_moves s (suc n) (viewing zero) v r h y = (s, n, finished, closed n refl)
  ready_moves s n finished v r h y = cc

  filling_moves :
      (s : Store d) (n : ℕ) (p : Phase)
      → IsStore s
      → Relies s p
      → n ≡ 0
      → is_filling p ≡ true
      → CanMove s n p
  unfolding CanMove
  filling_moves s n (filling t ms) v r z y =
      (_, n, rereading ms, filled t ms _ z (fill-advanced s t v r.0 r.1))
  filling_moves s n (starting ts ms) v r z y = cc
  filling_moves s n (rereading ms) v r z y = cc
  filling_moves s n (writing os) v r z y = cc
  filling_moves s n (opening k) v r z y = cc
  filling_moves s n (viewing k) v r z y = cc
  filling_moves s n finished v r z y = cc

  step_at :
      (u : System d) (before after : List Phase) (p : Phase)
      → u.tasks ≡ before ++ p ∷ after
      → CanMove u.store u.readers p
      → (v : System d) × Step e u v
  unfolding CanMove
  step_at u before after p was (s, n, q, m) = (
    record { store = s; readers = n; tasks = before ++ q ∷ after },
    moved before after p q was refl m,
  )

  -- In a state with the invariant every task is finished, or some task can make a step: the tasks
  -- never block one another for good.
  pub progress : (u : System d) → IsSystem u → All Finished u.tasks ⊎ ((v : System d) × Step e u v)
  progress u h = elim (find_place is_ready u.tasks) [
    | inl (before, p, after, was, yes') ↦
        let relies =
          All-at (Relies u.store) before after p (subst (All (Relies u.store)) was h.tasks) in
        let n : u.readers ≡ holders before + (holds p + holders after) =
          h.readers ∙ ap holders was ∙ holders-append before (p ∷ after) in
        inr (
          step_at u before after p was
            (ready_moves u.store u.readers p h.store relies (omega arith) yes'))
    | inr idle ↦ elim (find_place is_filling u.tasks) [
      | inl (before, p, after, was, yes') ↦
          let relies =
            All-at (Relies u.store) before after p (subst (All (Relies u.store)) was h.tasks) in
          inr (
            step_at u before after p was (
              filling_moves u.store u.readers p h.store relies (h.readers ∙ no_holders u.tasks idle)
                yes'))
      | inr none' ↦ inl (All-Finished u.tasks idle none')
    ]
  ]
