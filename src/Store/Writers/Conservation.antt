-- ===== src/Store/Writers/Conservation.antt =====
-- ptraf/src/store.rs: the traffic that the tasks count, over all the segments.
use ptraf.Shared.{
  ℕ, ◌-◌, ◌%◌, max, ◌≡◌, refl, sym, ap, ◌∙◌, subst, List, [], ◌∷◌, ◌++◌, back, All, arith,
}
use ptraf.Std.Bytes.{Endian}
use ptraf.Store.Traffic.{Stat, default_stat}
use ptraf.Store.Socket.{Interest}
use ptraf.Store.Dash.{Dash}
use ptraf.Store.Segment.Tally.{plus, tally, wrapped, wrapped-cong}
use ptraf.Store.Segment.Threads.{op_share, op_tally, op_tally-ops_of}
use ptraf.Store.Series.{TimeSegment, Store}
use ptraf.Store.Series.Advance.{advance}
use ptraf.Store.Series.Invariant.{IsStore}
use ptraf.Store.Series.Operations.{advanced}
use ptraf.Store.Writers.{
  Phase, starting, filling, rereading, writing, opening, viewing, finished, System, Move, looked,
  outdated, filled, reread, changed, released, opened, viewed, closed, Step, moved, Reach, here,
  next,
}
use ptraf.Store.Writers.Totals.{
  plus_assoc, plus_comm, plus-zero, plus_third, plus_last, wrapped-cong_right, cut_off, total,
  total-append, total-extended, total-at_back,
}
use ptraf.Store.Writers.Invariant.{
  IsSystem, Relies, All-at, fill-advanced, done_value, Reach-IsSystem, Finished,
}

-- The segments that a step drops, and those that a run drops.
abbrev pub dropped_by :
    {d : Dash} {e : Endian} {s s' : Store d} {n n' : ℕ} {p q : Phase}
    → Move e s n p s' n' q
    → List (TimeSegment d)
dropped_by {d} {e} {s} (filled t ms q none' f) =
    cut_off d (max s.capacity 1) s.window t s.segments (back s.segments)
dropped_by _ = []

abbrev pub dropped : {d : Dash} {e : Endian} {u v : System d} → Reach e u v → List (TimeSegment d)
dropped here = []
dropped (next r (moved _ _ _ _ _ _ m)) = dropped r ++ dropped_by m

module _ (d : Dash) (i : Interest) where
  -- What a task has yet to count for the interest.
  abbrev pub pending : Endian → Phase → Stat
  pending e (starting ts ms) = tally e i ms
  pending e (filling t ms) = tally e i ms
  pending e (rereading ms) = tally e i ms
  pending e (writing os) = op_tally i os
  pending e (opening k) = default_stat
  pending e (viewing k) = default_stat
  pending e finished = default_stat

  abbrev pub pendings : Endian → List Phase → Stat
  pendings e [] = default_stat
  pendings e (p ∷ ps) = plus (pending e p) (pendings e ps)

  pendings-append :
      (e : Endian) (ps : List Phase) (p : Phase) (qs : List Phase)
      → pendings e (ps ++ p ∷ qs) ≡ plus (pending e p) (plus (pendings e ps) (pendings e qs))
  pendings-append e [] p qs = ap (plus (pending e p)) (sym (plus-zero (pendings e qs)))
  pendings-append e (r ∷ ps) p qs =
      ap (plus (pending e r)) (pendings-append e ps p qs)
      ∙ plus_third (pending e r) (pending e p) (pendings e ps) (pendings e qs)

  even : (t p p' : Stat) → p ≡ p' → wrapped (plus t p) ≡ wrapped (plus default_stat (plus t p'))
  even t p p' e = ap wrapped (ap (plus t) e ∙ sym (plus-zero (plus t p')))

  truncated : (t w : ℕ) → t % w ≡ 0 → t - t % w ≡ t
  truncated t w h = omega (arith, h)

  -- What is counted and what is yet to be counted, before and after a step of a task.
  Move-total :
      (e : Endian) {s s' : Store d} {n n' : ℕ} {p q : Phase} (m : Move e s n p s' n' q)
      → IsStore s
      → Relies s p
      → wrapped (plus (total d i s.segments) (pending e p))
        ≡ wrapped (plus (total d i (dropped_by m)) (plus (total d i s'.segments) (pending e q)))
  Move-total e (looked ts t ms _ _) v r = even _ _ _ (sym (op_tally-ops_of e i ms))
  Move-total e (outdated ts t ms _ _) v r = even _ _ _ refl
  Move-total e {s} (filled t ms q none' f) v r =
      let same : (advanced d s t).segments ≡ q =
        ap (λ o. done_value o q) (sym (fill-advanced s t v r.0 r.1) ∙ f) in
      let n = max s.capacity 1 in
      let gone = cut_off d n s.window t s.segments (back s.segments) in
      let b : total d i s.segments ≡ plus (total d i gone) (total d i (advanced d s t).segments) =
        subst
          (λ k.
            total d i s.segments
            ≡ plus (total d i gone) (total d i (advance d n s.window k s.segments)))
          (sym (truncated t s.window r.1))
          (total-extended d i n s.window t s.segments (back s.segments) refl) in
      ap (λ x. wrapped (plus x (tally e i ms)))
        (b ∙ ap (λ q. plus (total d i gone) (total d i q)) same)
      ∙ ap wrapped (plus_assoc (total d i gone) (total d i q) (tally e i ms))
  Move-total e (reread ms) v r = even _ _ _ (sym (op_tally-ops_of e i ms))
  Move-total e {s} (changed o os) v r =
      ap wrapped (sym (plus_assoc (total d i s.segments) (op_share i o) (op_tally i os)))
      ∙ wrapped-cong _ _ (op_tally i os) (sym (total-at_back d i o s.segments r))
      ∙ ap wrapped (sym (plus-zero _))
  Move-total e (released m _) v r = even _ _ _ refl
  Move-total e (opened k) v r = even _ _ _ refl
  Move-total e (viewed k) v r = even _ _ _ refl
  Move-total e (closed m _) v r = even _ _ _ refl

  Step-total :
      (e : Endian) (u v : System d) (s : Step e u v)
      → IsSystem u
      → wrapped (plus (total d i u.store.segments) (pendings e u.tasks))
        ≡ wrapped (
            plus
              (total d i (dropped (next here s)))
              (plus (total d i v.store.segments) (pendings e v.tasks)))
  Step-total e u v (moved before after p q was is m) h =
      let relies =
        All-at (Relies u.store) before after p (subst (All (Relies u.store)) was h.tasks) in
      let rest = plus (pendings e before) (pendings e after) in
      let one = Move-total e m h.store relies in
      let a = ap (pendings e) was ∙ pendings-append e before p after in
      let b = ap (pendings e) is ∙ pendings-append e before q after in
      ap wrapped (
        ap (plus (total d i u.store.segments)) a
        ∙ sym (plus_assoc (total d i u.store.segments) (pending e p) rest))
      ∙ wrapped-cong _ _ rest one
      ∙ ap wrapped (
          plus_last (total d i (dropped_by m)) (total d i v.store.segments) (pending e q) rest
          ∙ ap (λ x. plus (total d i (dropped_by m)) (plus (total d i v.store.segments) x)) (sym b))

  Reach-total :
      (e : Endian) (u v : System d) (r : Reach e u v)
      → IsSystem u
      → wrapped (plus (total d i u.store.segments) (pendings e u.tasks))
        ≡ wrapped
            (plus (total d i (dropped r)) (plus (total d i v.store.segments) (pendings e v.tasks)))
  Reach-total e u v here h = even _ _ _ refl
  Reach-total e u z (next {v} r (moved before after p q was is m)) h =
      let s = moved before after p q was is m in
      let gone = total d i (dropped r) in
      let one = Step-total e v z s (Reach-IsSystem e r h) in
      Reach-total e u v r h
      ∙ wrapped-cong_right gone _ _ one
      ∙ ap wrapped (
          sym (plus_assoc gone (total d i (dropped_by m)) _)
          ∙ ap (λ x. plus x (plus (total d i z.store.segments) (pendings e z.tasks)))
              (sym (total-append d i (dropped r) (dropped_by m))))

  no_pendings : (e : Endian) (ps : List Phase) → All Finished ps → pendings e ps ≡ default_stat
  no_pendings e [] h = refl
  no_pendings e (p ∷ ps) h =
      ap (λ x. plus (pending e x) (pendings e ps)) h.0
      ∙ plus-zero (pendings e ps)
      ∙ no_pendings e ps h.1

  -- However the tasks interleave from a state with the invariant: when all of them have finished,
  -- what the segments and those that were dropped on the way have counted for an interest is what
  -- the segments had counted before and the traffic that the tasks had yet to count, modulo 2 ^ 64.
  -- Nothing is lost, and nothing counted twice.
  pub Reach-conserves :
      (e : Endian) (u v : System d) (r : Reach e u v)
      → IsSystem u
      → All Finished v.tasks
      → wrapped (plus (total d i u.store.segments) (pendings e u.tasks))
        ≡ wrapped (plus (total d i (dropped r)) (total d i v.store.segments))
  Reach-conserves e u v r h f =
      Reach-total e u v r h
      ∙ ap (λ x. wrapped (plus (total d i (dropped r)) (plus (total d i v.store.segments) x)))
          (no_pendings e v.tasks f)
      ∙ ap (λ x. wrapped (plus (total d i (dropped r)) x))
          (plus_comm (total d i v.store.segments) default_stat ∙ plus-zero _)
