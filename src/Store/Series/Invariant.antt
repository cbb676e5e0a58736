-- ===== src/Store/Series/Invariant.antt =====
-- The invariant of the store, and what each of its operations does to a store that has it.
use native.Mathlib.Nat.{add-mod_right}
use ptraf.Shared.{
  ℕ, zero, suc, ◌+◌, ◌%◌, ◌≤◌, ◌<◌, max, ◌≡◌, refl, ap, ◌∙◌, subst, inl, inr, Option, none, some,
  List, [], ◌∷◌, ◌++◌, length, back, leb, arith, Bool-cases, Option-cases,
}
use ptraf.Clock.{Timestamp, u64_mod}
use ptraf.Store.Dash.{Dash}
use ptraf.Store.Segment.{Segment}
use ptraf.Store.Series.{TimeSegment, Store, fresh, at_back}
use ptraf.Store.Series.Advance.{trim, length-trim, gap, advance}

module _ {d : Dash} where
  -- The timestamps are multiples of the window, and follow one another by one window.
  abbrev pub InWindows : ℕ → List (TimeSegment d) → Type 0
  InWindows w [] = Unit {0}
  InWindows w (x ∷ []) = x.ts % w ≡ 0
  InWindows w (x ∷ y ∷ rest) = (x.ts % w ≡ 0) × (y.ts ≡ x.ts + w) × InWindows w (y ∷ rest)

  -- The window is not 0 and fits 64 bits, the segments are at most the capacity (but one where that
  -- is 0), and they stand in consecutive windows.
  pub record IsStore (s : Store d) : Type 0 where
    pub window_pos : 0 < s.window
    pub window_fits : s.window < u64_mod
    pub bounded : length s.segments ≤ max s.capacity 1
    pub in_windows : InWindows s.window s.segments

  pub back-InWindows :
      (w : ℕ) (q : List (TimeSegment d)) (s : TimeSegment d)
      → InWindows w q
      → back q ≡ some s
      → s.ts % w ≡ 0
  back-InWindows w [] s h e = cc
  back-InWindows w (x ∷ []) s h e = ground arith
  back-InWindows w (x ∷ y ∷ q) s h e = back-InWindows w (y ∷ q) s h.2 e

  gap-InWindows : (w k : ℕ) (x : TimeSegment d) → x.ts % w ≡ 0 → InWindows w (x ∷ gap d w x.ts k)
  gap-InWindows w zero x h = h
  gap-InWindows w (suc k) x h =
      (h, refl, gap-InWindows w k (fresh d (x.ts + w)) (add-mod_right x.ts w ∙ h))

  append-gap-InWindows :
      (w k : ℕ) (q : List (TimeSegment d)) (s : TimeSegment d)
      → InWindows w q
      → back q ≡ some s
      → InWindows w (q ++ gap d w s.ts k)
  append-gap-InWindows w k [] s h e = cc
  append-gap-InWindows w k (x ∷ []) s h e =
      subst (λ t. InWindows w (x ∷ gap d w t k)) (ap (λ (o : Option (TimeSegment d)). ts_or o) e)
        (gap-InWindows w k x h)
    where
      ts_or : Option (TimeSegment d) → ℕ
      ts_or none = 0
      ts_or (some t) = t.ts
  append-gap-InWindows w k (x ∷ y ∷ q) s h e = (h.0, h.1, append-gap-InWindows w k (y ∷ q) s h.2 e)

  tail-InWindows :
      (w : ℕ) (x : TimeSegment d) (q : List (TimeSegment d)) → InWindows w (x ∷ q) → InWindows w q
  tail-InWindows w x [] h = tt
  tail-InWindows w x (y ∷ q) h = h.2

  trim-InWindows : (w n : ℕ) (q : List (TimeSegment d)) → InWindows w q → InWindows w (trim n q)
  trim-InWindows w n [] h = tt
  trim-InWindows w n (x ∷ q) h = elim (Bool-cases (leb (suc (length q)) n)) [
    | inl fits ↦ rw fits h
    | inr over ↦ rw over (trim-InWindows w n q (tail-InWindows w x q h))
  ]

  pub advance-InWindows :
      (n w : ℕ) (ts : Timestamp) (q : List (TimeSegment d))
      → ts % w ≡ 0
      → InWindows w q
      → InWindows w (advance d n w ts q)
  advance-InWindows n w ts q ht h = elim (Option-cases (back q)) [
    | inl e ↦ rw e ht
    | inr (s, e) ↦ rw e (trim-InWindows w n _ (append-gap-InWindows w _ q s h e))
  ]

  pub length-advance :
      (n w : ℕ) (ts : Timestamp) (q : List (TimeSegment d))
      → 0 < n
      → length (advance d n w ts q) ≤ n
  length-advance n w ts q h = elim (Option-cases (back q)) [
    | inl e ↦ rw e (omega arith)
    | inr (s, e) ↦ rw e (length-trim n _)
  ]

  at_back-InWindows :
      (w : ℕ) (f : Segment d → Segment d) (q : List (TimeSegment d))
      → InWindows w q
      → InWindows w (at_back d f q)
  unfolding at_back
  at_back-InWindows w f [] h = tt
  at_back-InWindows w f (x ∷ []) h = h
  at_back-InWindows w f (x ∷ y ∷ []) h = h
  at_back-InWindows w f (x ∷ y ∷ z ∷ q) h = (h.0, h.1, at_back-InWindows w f (y ∷ z ∷ q) h.2)

  pub length-at_back :
      (f : Segment d → Segment d) (q : List (TimeSegment d)) → length (at_back d f q) ≡ length q
  unfolding at_back
  length-at_back f [] = refl
  length-at_back f (x ∷ []) = refl
  length-at_back f (x ∷ y ∷ q) = ap suc (length-at_back f (y ∷ q))

  -- A change of the newest segment keeps the invariant.
  pub at_back-IsStore :
      (f : Segment d → Segment d) (s : Store d)
      → IsStore s
      → IsStore (record s { segments = at_back d f s.segments })
  at_back-IsStore f s v = record {
    window_pos = v.window_pos;
    window_fits = v.window_fits;
    bounded = rw (length-at_back f s.segments) v.bounded;
    in_windows = at_back-InWindows s.window f s.segments v.in_windows;
  }
