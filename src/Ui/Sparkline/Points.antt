-- ===== src/Ui/Sparkline/Points.antt =====
-- ptraf/src/ui/traffic_sparkline.rs: the data points of segments in the order of time.
use mathlib.Core.List.{reverse, foldl}
use ptraf.Shared.{
  ℕ, ◌≤◌, ◌<◌, ◌≡◌, refl, sym, ◌∙◌, subst, inl, inr, true, false, Option, none, some, List, [], ◌∷◌,
  map, ltb, option_map, unwrap_or, take_while, drop_while, back, All, Bool-cases, arith, ltb→lt,
}
use ptraf.Filter.Interpretor.{Interpretor}
use ptraf.Filter.Interpretor
use ptraf.Store.Socket.{Socket, socket_filterable}
use ptraf.Store.Dash.{Dash}
use ptraf.Store.Segment.{for_each_socket}
use ptraf.Store.Series.{TimeSegment}
use ptraf.Store.Series.Invariant.{InWindows}
use ptraf.Ui.Filter.{Filter}
use ptraf.Ui.Sparkline.{DataPoint, add_socket, datapoint_of, skip_first}
use ptraf.Ui.Sparkline.Sorted.{
  Sorted, All-map, All-take_while, All-reverse, Sorted-reverse, Sorted-take_while,
}

-- Data points in the order of time.
abbrev pub Earlier : DataPoint → DataPoint → Type 0
Earlier p q = p.ts < q.ts

pub Sorted-back :
    (xs : List DataPoint)
    → Sorted Earlier xs
    → All (λ p. p.ts ≤ unwrap_or (option_map (λ (p : DataPoint). p.ts) (back xs)) 0) xs
Sorted-back [] h = tt
Sorted-back (x ∷ []) h = (omega arith, tt)
Sorted-back (x ∷ y ∷ xs) h =
    let rest = Sorted-back (y ∷ xs) h.1 in
    let one = h.0.0 in let two = rest.0 in (omega arith, rest)

-- What is left after points that are too old.
pub discarded :
    (t : ℕ) (xs : List DataPoint)
    → Sorted Earlier xs
    → All (λ p. t ≤ p.ts) (drop_while (λ p. ltb p.ts t) xs)
discarded t [] h = tt
discarded t (x ∷ xs) h = elim (Bool-cases (ltb x.ts t)) [
  | inl old ↦ rw (old, All) (discarded t xs h.1)
  | inr new' ↦
      rw (new', All)
        (let k = late x new' in (k, All-map (Earlier x) (λ p. t ≤ p.ts) (λ p e. le k e) xs h.0))
]
  where
    late : (x : DataPoint) → ltb x.ts t ≡ false → t ≤ x.ts
    late x e = ground arith

    le : {a b c : ℕ} → a ≤ b → b < c → a ≤ c
    le h k = omega arith

module _ (d : Dash) where
  abbrev pub Before : TimeSegment d → TimeSegment d → Type 0
  Before s t = s.ts < t.ts

  foldl_ts :
      (f : DataPoint → Socket → DataPoint)
      → ((p : DataPoint) (k : Socket) → (f p k).ts ≡ p.ts)
      → (ks : List Socket) (p : DataPoint) → (foldl f p ks).ts ≡ p.ts
  foldl_ts f h [] p = refl
  foldl_ts f h (k ∷ ks) p = foldl_ts f h ks (f p k) ∙ h p k

  add_socket_ts :
      (i : Interpretor) (s : TimeSegment d) (p : DataPoint) (k : Socket)
      → (add_socket d i s p k).ts ≡ p.ts
  unfolding add_socket
  add_socket_ts i s p k = elim (Bool-cases (Interpretor.filter i k)) [
    | inl yes' ↦ rw yes' refl
    | inr no' ↦ rw no' refl
  ]

  -- A data point stands at the timestamp of its segment.
  pub datapoint_ts :
      (f : Filter) (i : Option Interpretor) (s : TimeSegment d) → (datapoint_of d f i s).ts ≡ s.ts
  unfolding datapoint_of for_each_socket
  datapoint_ts f (some i) s =
      foldl_ts (add_socket d i s) (add_socket_ts i s) (d.iter s.segment.socks) _
  datapoint_ts f none s = refl

  pub consecutive :
      (w : ℕ) (s : TimeSegment d) (q : List (TimeSegment d))
      → 0 < w
      → InWindows w (s ∷ q)
      → All (Before s) q
  consecutive w s [] pos h = tt
  consecutive w s (t ∷ q) pos h =
      (first, All-map (Before t) (Before s) (λ u e. later first e) q (consecutive w t q pos h.2))
    where
      first : s.ts < t.ts
      first = let e = h.1 in omega arith

      later : {a b c : ℕ} → a < b → b < c → a < c
      later h k = omega arith

  InWindows-tail :
      (w : ℕ) (s : TimeSegment d) (q : List (TimeSegment d)) → InWindows w (s ∷ q) → InWindows w q
  InWindows-tail w s [] h = tt
  InWindows-tail w s (t ∷ q) h = h.2

  -- The segments of a store stand in the order of time.
  pub segments-Sorted : (w : ℕ) (q : List (TimeSegment d)) → 0 < w → InWindows w q → Sorted Before q
  segments-Sorted w [] pos h = tt
  segments-Sorted w (s ∷ q) pos h =
      (consecutive w s q pos h, segments-Sorted w q pos (InWindows-tail w s q h))

  module _ (f : TimeSegment d → DataPoint) (keeps : (s : TimeSegment d) → (f s).ts ≡ s.ts) where
    All-map_ts :
        (P : ℕ → Type 0) (q : List (TimeSegment d))
        → All (λ s. P s.ts) q
        → All (λ p. P p.ts) (map f q)
    All-map_ts P [] h = tt
    All-map_ts P (s ∷ q) h = (subst P (sym (keeps s)) h.0, All-map_ts P q h.1)

    map-Sorted :
        (q : List (TimeSegment d))
        → Sorted (λ s t. Before t s) q
        → Sorted (λ p q. Earlier q p) (map f q)
    map-Sorted [] h = tt
    map-Sorted (s ∷ q) h = (
      subst (λ n. All (λ p. p.ts < n) (map f q)) (sym (keeps s)) (All-map_ts (λ n. n < s.ts) q h.0),
      map-Sorted q h.1,
    )

    -- The points of the segments after a point in time, but the newest one, oldest first.
    unfoldable pub new_points : ℕ → List (TimeSegment d) → List DataPoint
    new_points start q = reverse (skip_first (map f (take_while (λ s. ltb start s.ts) (reverse q))))

    All-skip_first :
        (P : DataPoint → Type 0) (ps : List DataPoint) → All P ps → All P (skip_first ps)
    All-skip_first P [] h = tt
    All-skip_first P (p ∷ ps) h = h.1

    Sorted-skip_first :
        (ps : List DataPoint)
        → Sorted (λ p q. Earlier q p) ps
        → Sorted (λ p q. Earlier q p) (skip_first ps)
    Sorted-skip_first [] h = tt
    Sorted-skip_first (p ∷ ps) h = h.1

    pub new_points-Sorted :
        (start : ℕ) (q : List (TimeSegment d))
        → Sorted Before q
        → Sorted Earlier (new_points start q)
    unfolding new_points
    new_points-Sorted start q h =
        let taken = take_while (λ s. ltb start s.ts) (reverse q) in
        Sorted-reverse (λ p q. Earlier q p) (skip_first (map f taken))
          (Sorted-skip_first (map f taken) (
            map-Sorted taken (
              Sorted-take_while (λ s t. Before t s) (λ s. ltb start s.ts) (reverse q)
                (Sorted-reverse Before q h))))

    -- What holds of the timestamps of the segments holds of those of the points, which lie after
    -- the point in time.
    pub All-new_points :
        (P : ℕ → Type 0) (start : ℕ) (q : List (TimeSegment d))
        → All (λ s. P s.ts) q
        → All (λ p. (start < p.ts) × P p.ts) (new_points start q)
    unfolding new_points
    All-new_points P start q h =
        let taken = take_while (λ (s : TimeSegment d). ltb start s.ts) (reverse q) in
        let Q = λ (n : ℕ). (start < n) × P n in
        All-reverse (λ p. Q p.ts) (skip_first (map f taken))
          (All-skip_first (λ p. Q p.ts) (map f taken)
            (All-map_ts Q taken (
              All-map (λ s. (ltb start s.ts ≡ true) × P s.ts) (λ s. Q s.ts)
                (λ s k. (ltb→lt start s.ts k.0, k.1)) taken
                (All-take_while (λ s. P s.ts) (λ s. ltb start s.ts) (reverse q)
                  (All-reverse (λ s. P s.ts) q h)))))
