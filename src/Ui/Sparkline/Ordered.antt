-- ===== src/Ui/Sparkline/Ordered.antt =====
-- ptraf/src/ui/traffic_sparkline.rs: the order of the data points.
use mathlib.Core.List.{reverse}
use ptraf.Shared.{
  ℕ, ◌≤◌, ◌<◌, ◌≡◌, refl, sym, ap, subst, Option, none, some, List, [], ◌∷◌, ◌++◌, map, ltb,
  option_map, unwrap_or, front, take_while, drop_while, back, All, arith,
}
use ptraf.Filter.Interpretor.{Interpretor}
use ptraf.Store.Socket.{socket_filterable}
use ptraf.Store.Dash.{Dash}
use ptraf.Store.Series.{Store, TimeSegment, oldest}
use ptraf.Store.Series.Invariant.{IsStore, InWindows}
use ptraf.Ui.Sparkline.{
  DataPoint, TrafficSparkline, datapoint_of, discard, collect_points, skip_first,
}
use ptraf.Ui.Sparkline.Sorted.{
  Sorted, All-map, All-append, All-drop_while, Sorted-append, Sorted-drop_while,
}
use ptraf.Ui.Sparkline.Points.{
  Earlier, Sorted-back, discarded, Before, consecutive, segments-Sorted, datapoint_ts, new_points,
  new_points-Sorted, All-new_points,
}

module _ (d : Dash) where
  -- No data point is older than the oldest segment of the store.
  abbrev pub Covered : Option (TimeSegment d) → List DataPoint → Type 0
  Covered none ps = Unit {0}
  Covered (some s) ps = All (λ p. s.ts ≤ p.ts) ps

  no_older :
      (w : ℕ) (q : List (TimeSegment d)) (s : TimeSegment d)
      → 0 < w
      → InWindows w q
      → front q ≡ some s
      → All (λ t. s.ts ≤ t.ts) q
  no_older w [] s pos v h = cc
  no_older w (x ∷ q) s pos v h =
      subst (λ (y : TimeSegment d). All (λ t. y.ts ≤ t.ts) (x ∷ q)) (ap (λ o. unwrap_or o x) h)
        (
          omega arith,
          All-map (Before d x) (λ t. x.ts ≤ t.ts) (λ t e. weaker e) q (consecutive d w x q pos v),
        )
    where
      weaker : {a b : ℕ} → a < b → a ≤ b
      weaker h = omega arith

  module _ (f : TimeSegment d → DataPoint) (keeps : (s : TimeSegment d) → (f s).ts ≡ s.ts) where
    -- The points that are kept, and the new ones behind them.
    joined : (o : Option ℕ) (ds : List DataPoint) (q : List (TimeSegment d)) → List DataPoint
    joined o ds q =
        discard d o ds
        ++ new_points d f keeps (unwrap_or (option_map (λ (p : DataPoint). p.ts) (back ds)) 0) q

    discard-Sorted :
        (o : Option ℕ) (ds : List DataPoint) → Sorted Earlier ds → Sorted Earlier (discard d o ds)
    unfolding discard
    discard-Sorted none ds h = h
    discard-Sorted (some t) ds h = Sorted-drop_while Earlier (λ p. ltb p.ts t) ds h

    discard-All :
        (P : DataPoint → Type 0) (o : Option ℕ) (ds : List DataPoint)
        → All P ds
        → All P (discard d o ds)
    unfolding discard
    discard-All P none ds h = h
    discard-All P (some t) ds h = All-drop_while P (λ p. ltb p.ts t) ds h

    joined-Sorted :
        (o : Option ℕ) (ds : List DataPoint) (q : List (TimeSegment d))
        → Sorted Earlier ds
        → Sorted (Before d) q
        → Sorted Earlier (joined o ds q)
    unfolding joined
    joined-Sorted o ds q h k =
        let start = unwrap_or (option_map (λ (p : DataPoint). p.ts) (back ds)) 0 in
        let new = new_points d f keeps start q in
        let late =
          All-new_points d f keeps (λ n. Unit {0}) start q
            (All-map (λ s. Unit {0}) (λ s. Unit {0}) (λ s u. u) q (units q)) in
        Sorted-append Earlier (discard d o ds) new (discard-Sorted o ds h)
          (new_points-Sorted d f keeps start q k)
          (All-map (λ p. p.ts ≤ start) (λ p. All (Earlier p) new)
            (λ p e.
              All-map (λ r. (start < r.ts) × Unit {0}) (Earlier p) (λ r l. before_all e l.0) new
                late)
            (discard d o ds) (discard-All (λ p. p.ts ≤ start) o ds (Sorted-back ds h)))
      where
        units : (q : List (TimeSegment d)) → All (λ s. Unit {0}) q
        units [] = tt
        units (s ∷ q) = (tt, units q)

        before_all : {a b c : ℕ} → a ≤ b → b < c → a < c
        before_all h k = omega arith

    joined-Covered :
        (w : ℕ) (ds : List DataPoint) (q : List (TimeSegment d))
        → 0 < w
        → InWindows w q
        → Sorted Earlier ds
        → Covered (front q) (joined (option_map (λ (s : TimeSegment d). s.ts) (front q)) ds q)
    unfolding joined discard
    joined-Covered w ds [] pos v h = tt
    joined-Covered w ds (x ∷ q) pos v h =
        let start = unwrap_or (option_map (λ (p : DataPoint). p.ts) (back ds)) 0 in
        let new = new_points d f keeps start (x ∷ q) in
        All-append (λ p. x.ts ≤ p.ts) (drop_while (λ p. ltb p.ts x.ts) ds) new (discarded x.ts ds h)
          (All-map (λ p. (start < p.ts) × (x.ts ≤ p.ts)) (λ p. x.ts ≤ p.ts) (λ p k. k.1) new
            (All-new_points d f keeps (λ n. x.ts ≤ n) start (x ∷ q)
              (no_older w (x ∷ q) x pos v refl)))

  -- For a store with its invariant and points in the order of time: after a collection the points
  -- are in the order of time again, no two of one segment, and none is older than the oldest segment
  -- of the store.
  pub collect_points-Sorted :
      (self : TrafficSparkline) (store : Store d) (i : Option Interpretor)
      → IsStore store
      → Sorted Earlier self.dataset
      → self.reverse_buffer ≡ []
      → Sorted Earlier (collect_points d self store i).dataset
        × Covered (oldest d store) (collect_points d self store i).dataset
        × ((collect_points d self store i).reverse_buffer ≡ [])
  unfolding collect_points joined new_points oldest
  collect_points-Sorted self store i v h e =
      let f = datapoint_of d self.filter i in
      let keeps = datapoint_ts d self.filter i in
      let o = option_map (λ (s : TimeSegment d). s.ts) (front store.segments) in
      let start = unwrap_or (option_map (λ (p : DataPoint). p.ts) (back self.dataset)) 0 in
      let points : List DataPoint → List DataPoint = λ b.
        discard d o self.dataset
        ++ reverse
            (skip_first (b ++ map f (take_while (λ s. ltb start s.ts) (reverse store.segments)))) in
      (
        subst (λ b. Sorted Earlier (points b)) (sym e)
            (joined-Sorted f keeps o self.dataset store.segments h
              (segments-Sorted d store.window store.segments v.window_pos v.in_windows)),
        subst (λ b. Covered (front store.segments) (points b)) (sym e)
            (joined-Covered f keeps store.window self.dataset store.segments v.window_pos
              v.in_windows h),
        refl,
      )
