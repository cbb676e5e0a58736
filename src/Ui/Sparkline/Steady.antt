-- ===== src/Ui/Sparkline/Steady.antt =====
-- ptraf/src/ui/traffic_sparkline.rs: what the graph reads while other tasks store their batches.
use mathlib.Core.List.{reverse, reverse-append}
use ptraf.Shared.{
  ℕ, ◌≡◌, refl, sym, ap, ◌∙◌, inl, inr, Bool-cases, Option, some, List, [], ◌∷◌, ◌++◌, map,
  option_map, unwrap_or, ltb, take_while, front, back, arith,
}
use ptraf.Std.Bytes.{Endian}
use ptraf.Clock.{Timestamp}
use ptraf.Filter.Interpretor.{Interpretor}
use ptraf.Store.Dash.{Dash}
use ptraf.Store.Series.{Store, TimeSegment, oldest}
use ptraf.Store.Writers.{Phase, System, Reach, here, next}
use ptraf.Store.Writers.Invariant.{IsSystem, has_back, holds, Reach-IsSystem}
use ptraf.Store.Writers.Exclusion.{windows, older, Step-windows}
use ptraf.Ui.Sparkline.{
  DataPoint, TrafficSparkline, datapoint_of, discard, collect_points, skip_first,
}

module _ {d : Dash} where
  stamps : List (TimeSegment d) → List Timestamp
  stamps q = map (λ (s : TimeSegment d). s.ts) q

  split_newest :
      (q : List (TimeSegment d)) (x : TimeSegment d) → back q ≡ some x → q ≡ older q ++ x ∷ []
  split_newest [] x h = cc
  split_newest (y ∷ []) x h = cc
  split_newest (y ∷ z ∷ q) x h = ap (λ l. y ∷ l) (split_newest (z ∷ q) x h)

  newest_first :
      (q : List (TimeSegment d)) (x : TimeSegment d)
      → back q ≡ some x
      → reverse q ≡ x ∷ reverse (older q)
  newest_first q x h = ap reverse (split_newest q x h) ∙ reverse-append (older q) (x ∷ [])

  back-stamps :
      (q : List (TimeSegment d))
      → back (stamps q) ≡ option_map (λ (s : TimeSegment d). s.ts) (back q)
  unfolding stamps
  back-stamps [] = refl
  back-stamps (x ∷ []) = refl
  back-stamps (x ∷ y ∷ q) = back-stamps (y ∷ q)

  front-stamps :
      (q : List (TimeSegment d))
      → front (stamps q) ≡ option_map (λ (s : TimeSegment d). s.ts) (front q)
  unfolding stamps
  front-stamps [] = refl
  front-stamps (x ∷ q) = refl

  module _ (f : TimeSegment d → DataPoint) (start : ℕ) where
    -- The new points, the newest segment left out.
    abbrev fresh_points : List (TimeSegment d) → List DataPoint
    fresh_points l = skip_first (map f (take_while (λ s. ltb start s.ts) l))

    -- Of the newest segment only its timestamp matters.
    fresh_points-newest :
        (x y : TimeSegment d) (l : List (TimeSegment d))
        → x.ts ≡ y.ts
        → fresh_points (x ∷ l) ≡ fresh_points (y ∷ l)
    fresh_points-newest x y l h = elim (Bool-cases (ltb start x.ts)) [
      | inl late ↦ let k = rw h at late in rw (late, k, take_while) refl
      | inr early ↦ let k = rw h at early in rw (early, k, take_while) refl
    ]

    fresh_points-same :
        (q r : List (TimeSegment d))
        → stamps q ≡ stamps r
        → older q ≡ older r
        → fresh_points (reverse q) ≡ fresh_points (reverse r)
    unfolding stamps
    fresh_points-same [] [] h k = refl
    fresh_points-same [] (y ∷ r) h k = cc
    fresh_points-same (x ∷ q) [] h k = cc
    fresh_points-same (x ∷ q) (y ∷ r) h k =
        let (a, e) = has_back (x ∷ q) (omega arith) in
        let (b, g) = has_back (y ∷ r) (omega arith) in
        let same : option_map (λ (s : TimeSegment d). s.ts) (some a)
            ≡ option_map (λ (s : TimeSegment d). s.ts) (some b) =
          ap (option_map (λ (s : TimeSegment d). s.ts)) (sym e)
          ∙ sym (back-stamps (x ∷ q))
          ∙ ap back h
          ∙ back-stamps (y ∷ r)
          ∙ ap (option_map (λ (s : TimeSegment d). s.ts)) g in
        ap fresh_points (newest_first (x ∷ q) a e)
        ∙ fresh_points-newest a b (reverse (older (x ∷ q))) (cc)
        ∙ ap (λ l. fresh_points (b ∷ reverse l)) k
        ∙ sym (ap fresh_points (newest_first (y ∷ r) b g))

  -- The graph does not depend on what the newest segment has counted.
  collect_points-older :
      (self : TrafficSparkline) (s s' : Store d) (i : Option Interpretor)
      → self.reverse_buffer ≡ []
      → windows s' ≡ windows s
      → older s'.segments ≡ older s.segments
      → collect_points d self s' i ≡ collect_points d self s i
  unfolding collect_points oldest stamps
  collect_points-older self s s' i empty h k =
      let start = unwrap_or (option_map (λ (p : DataPoint). p.ts) (back self.dataset)) 0 in
      let f = datapoint_of d self.filter i in
      let points : List DataPoint → Option Timestamp → List DataPoint → TrafficSparkline = λ b o ps.
        record self {
          dataset = discard d o self.dataset ++ reverse (skip_first (b ++ ps));
          reverse_buffer = [];
        } in
      let taken : Store d → List DataPoint =
        λ s. map f (take_while (λ s. ltb start s.ts) (reverse s.segments)) in
      let first : Store d → Option Timestamp =
        λ s. option_map (λ (s : TimeSegment d). s.ts) (front s.segments) in
      ap (λ b. points b (first s') (taken s')) empty
      ∙ ap (λ o. points [] o (taken s'))
          (sym (front-stamps s'.segments) ∙ ap front h ∙ front-stamps s.segments)
      ∙ ap
          (λ (ps : List DataPoint). record self {
            dataset = discard d (first s) self.dataset ++ reverse ps;
            reverse_buffer = [];
          })
          (fresh_points-same f start s'.segments s.segments h k)
      ∙ ap (λ b. points b (first s) (taken s)) (sym empty)

  module _ (e : Endian) where
    -- A state in which some task holds the read lock.
    abbrev pub Locked : System d → Type 0
    Locked u =
        (before : List Phase) × (p : Phase) × (after : List Phase) × (u.tasks ≡ before ++ p ∷ after)
        × (holds p ≡ 1)

    -- In every state that a step of the run starts from a task holds the read lock.
    abbrev pub LockedIn : {u v : System d} → Reach e u v → Type 0
    LockedIn here = Unit {0}
    LockedIn (next {v} r s) = LockedIn r × Locked v

    Reach-windows :
        (u v : System d) (r : Reach e u v)
        → IsSystem u
        → LockedIn r
        → (windows v.store ≡ windows u.store) × (older v.store.segments ≡ older u.store.segments)
    Reach-windows u v here h l = (refl, refl)
    Reach-windows u w (next {v} r s) h l =
        let (same, kept) = Reach-windows u v r h l.0 in
        let (before, p, after, was, locked) = l.1 in
        let (target, now, left) =
          Step-windows e v w before after p (Reach-IsSystem e r h) was locked s in
        (now ∙ same, left ∙ kept)

    -- For a run of the tasks from a state with the invariant, throughout which some task holds the
    -- read lock, as one that views the segments does, and a graph whose buffer is empty: the graph
    -- is collected alike from the first and the last state, whatever the other tasks store.
    pub collect_points-Reach :
        (self : TrafficSparkline) (i : Option Interpretor) (u v : System d) (r : Reach e u v)
        → IsSystem u
        → LockedIn r
        → self.reverse_buffer ≡ []
        → collect_points d self v.store i ≡ collect_points d self u.store i
    collect_points-Reach self i u v r h l empty =
        let (same, kept) = Reach-windows u v r h l in
        collect_points-older self u.store v.store i empty same kept
