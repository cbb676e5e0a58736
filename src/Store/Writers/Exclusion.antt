-- ===== src/Store/Writers/Exclusion.antt =====
-- ptraf/src/store.rs: the segments while a task holds the read lock.
use ptraf.Shared.{
  ℕ, ◌+◌, ◌<◌, ◌≡◌, refl, ap, ◌∙◌, subst, some, List, [], ◌∷◌, ◌++◌, map, back, All, arith,
}
use ptraf.Std.Bytes.{Endian}
use ptraf.Clock.{Timestamp}
use ptraf.Store.Dash.{Dash}
use ptraf.Store.Segment.{Segment}
use ptraf.Store.Series.{TimeSegment, Store, at_back}
use ptraf.Store.Writers.{
  Phase, starting, filling, rereading, writing, opening, viewing, finished, System, Move, looked,
  outdated, filled, reread, changed, released, opened, viewed, closed, Step, moved,
}
use ptraf.Store.Writers.Invariant.{
  IsSystem, Relies, holds, holders, holders-append, All-at, has_back,
}

module _ {d : Dash} where
  -- The timestamps of the segments, oldest first.
  abbrev pub windows : Store d → List Timestamp
  windows s = map (λ x. x.ts) s.segments

  windows-at_back :
      (f : Segment d → Segment d) (q : List (TimeSegment d))
      → map (λ x. x.ts) (at_back d f q) ≡ map (λ x. x.ts) q
  unfolding at_back
  windows-at_back f [] = refl
  windows-at_back f (x ∷ []) = refl
  windows-at_back f (x ∷ y ∷ q) = ap (λ ts. x.ts ∷ ts) (windows-at_back f (y ∷ q))

  -- The segments without the newest one.
  abbrev pub older : List (TimeSegment d) → List (TimeSegment d)
  older [] = []
  older (x ∷ []) = []
  older (x ∷ y ∷ q) = x ∷ older (y ∷ q)

  older-at_back :
      (f : Segment d → Segment d) (q : List (TimeSegment d)) → older (at_back d f q) ≡ older q
  unfolding at_back
  older-at_back f [] = refl
  older-at_back f (x ∷ []) = refl
  older-at_back f (x ∷ y ∷ []) = refl
  older-at_back f (x ∷ y ∷ z ∷ q) = ap (λ l. x ∷ l) (older-at_back f (y ∷ z ∷ q))

  -- A task that is storing its batch has a newest segment to store it in.
  abbrev pub HasTarget : Store d → Phase → Type 0
  HasTarget s (writing os) = (x : TimeSegment d) × (back s.segments ≡ some x)
  HasTarget s _ = Unit {0}

  target : (s : Store d) (p : Phase) → Relies s p → HasTarget s p
  target s (starting ts ms) h = tt
  target s (filling t ms) h = tt
  target s (rereading ms) h = tt
  target s (writing os) h = has_back s.segments h
  target s (opening k) h = tt
  target s (viewing k) h = tt
  target s finished h = tt

  module _ (e : Endian) where
    Move-windows :
        {s s' : Store d} {n n' : ℕ} {p q : Phase}
        → Move e s n p s' n' q
        → 0 < n
        → windows s' ≡ windows s
    Move-windows (looked ts t ms e now) h = refl
    Move-windows (outdated ts t ms e old) h = refl
    Move-windows (filled t ms q none' e) h = absurd (omega arith)
    Move-windows (reread ms) h = refl
    Move-windows {s} (changed o os) h = windows-at_back _ s.segments
    Move-windows (released m e) h = refl
    Move-windows (opened k) h = refl
    Move-windows (viewed k) h = refl
    Move-windows (closed m e) h = refl

    Move-older :
        {s s' : Store d} {n n' : ℕ} {p q : Phase}
        → Move e s n p s' n' q
        → 0 < n
        → older s'.segments ≡ older s.segments
    Move-older (looked ts t ms e now) h = refl
    Move-older (outdated ts t ms e old) h = refl
    Move-older (filled t ms q none' e) h = absurd (omega arith)
    Move-older (reread ms) h = refl
    Move-older {s} (changed o os) h = older-at_back _ s.segments
    Move-older (released m e) h = refl
    Move-older (opened k) h = refl
    Move-older (viewed k) h = refl
    Move-older (closed m e) h = refl

    -- In a state with the invariant in which a task holds the read lock, to store its batch or to
    -- view the segments: no step of any task adds a segment, drops one, or changes any but the
    -- newest; a task that is storing its batch has a newest segment to store it in. So every message
    -- of a batch goes into one segment, and what a view shows of the older segments is what it
    -- showed when it was opened, however many tasks write.
    pub Step-windows :
        (u v : System d) (before after : List Phase) (p : Phase)
        → IsSystem u
        → u.tasks ≡ before ++ p ∷ after
        → holds p ≡ 1
        → Step e u v
        → HasTarget u.store p
          × (windows v.store ≡ windows u.store)
          × (older v.store.segments ≡ older u.store.segments)
    Step-windows u v before after p h was locked (moved _ _ _ _ _ _ m) =
        let relies : Relies u.store p =
          All-at (Relies u.store) before after p (subst (All (Relies u.store)) was h.tasks) in
        let n : u.readers ≡ holders before + (holds p + holders after) =
          h.readers ∙ ap holders was ∙ holders-append before (p ∷ after) in
        (target u.store p relies, Move-windows m (omega arith), Move-older m (omega arith))
