-- ===== src/Store/Series/Advance.antt =====
-- ptraf/src/store.rs: the loop that creates missing segments, and a reference definition of it:
-- append an empty segment for each missing window, then keep the newest ones.
use native.Mathlib.Nat.{mod-add-div', div-le_self, dvd-sub, dvd_of_mod-eq-zero, mod-eq-zero_of_dvd}
use ptraf.Shared.{
  ℕ, zero, suc, ◌+◌, ◌-◌, ◌*◌, ◌/◌, ◌%◌, ◌≤◌, ◌<◌, max, ◌≡◌, refl, sym, ap, ◌∙◌, inl, inr, Option,
  none, some, List, [], ◌∷◌, ◌++◌, append_assoc, append-nil, tail, length, length-append, back,
  back-append, leb, leb→le, if◌then◌else◌, arith, Bool-cases, Option-cases,
}
use ptraf.Shared.Results.{done}
use ptraf.Clock.{Timestamp, add, duration_limit}
use ptraf.Store.Dash.{Dash}
use ptraf.Store.Series.{TimeSegment, fresh, push, fill}

-- The last `n` elements.
abbrev pub trim {ℓ} : {A : Type ℓ} → ℕ → List A → List A
trim n [] = []
trim n (x ∷ xs) = let rest = trim n xs in if leb (suc (length xs)) n then x ∷ xs else rest

module _ {ℓ} {A : Type ℓ} where
  pub trim_short : (n : ℕ) (xs : List A) → length xs ≤ n → trim n xs ≡ xs
  trim_short n [] h = refl
  trim_short n (x ∷ xs) h = ground arith

  trim-trim-append : (n : ℕ) (xs ys : List A) → trim n (trim n xs ++ ys) ≡ trim n (xs ++ ys)
  trim-trim-append n [] ys = refl
  trim-trim-append n (x ∷ xs) ys = ground (arith, trim-trim-append n xs ys, length-append xs ys)

  pub length-trim : (n : ℕ) (xs : List A) → length (trim n xs) ≤ n
  length-trim n [] = omega arith
  length-trim n (x ∷ xs) = ground (arith, length-trim n xs)

  back-trim : (n : ℕ) (xs : List A) (y : A) → 0 < n → back (trim n (xs ++ y ∷ [])) ≡ some y
  back-trim n [] y h = ground arith
  back-trim n (x ∷ xs) y h = ground (arith, back-trim n xs y h, back-append (x ∷ xs) y)

-- The number of windows between two timestamps.
pub no_windows : (w a b : ℕ) → a ≤ b → (a - b) / w ≡ 0
no_windows w a b h = omega (arith, div-le_self (a - b) w)

windows_few : (w a b : ℕ) → 0 < w → (a - b) / w < suc (suc a)
windows_few w a b h = omega arith

windows_exact : (w a b : ℕ) → b < a → a % w ≡ 0 → b % w ≡ 0 → b + (a - b) / w * w ≡ a
windows_exact w a b h ha hb = omega (
  arith,
  mod-add-div' (a - b) w,
  mod-eq-zero_of_dvd w (dvd-sub w (dvd_of_mod-eq-zero w ha) (dvd_of_mod-eq-zero w hb)),
)

-- As many windows further is the later of the two.
pub windows_latest : (w a b : ℕ) → a % w ≡ 0 → b % w ≡ 0 → b + (a - b) / w * w ≡ max a b
windows_latest w a b ha hb = elim (Bool-cases (leb a b)) [
  | inl old ↦ rw (no_windows w a b (leb→le a b old)) (omega (arith, leb→le a b old))
  | inr newer ↦ windows_exact w a b (ground arith) ha hb ∙ ground arith
]

module _ (d : Dash) where
  -- `k` empty segments, a window apart, after the timestamp `last`.
  abbrev pub gap : ℕ → Timestamp → ℕ → List (TimeSegment d)
  gap w last zero = []
  gap w last (suc k) = fresh d (last + w) ∷ gap w (last + w) k

  abbrev pub extended :
      ℕ → ℕ → Timestamp → List (TimeSegment d) → Option (TimeSegment d) → List (TimeSegment d)
  extended n w ts q none = fresh d ts ∷ []
  extended n w ts q (some s) = trim n (q ++ gap w s.ts ((ts - s.ts) / w))

  -- The reference: every window from the newest segment's to that of `ts` is there, and the newest
  -- `n` segments are kept.
  abbrev pub advance : ℕ → ℕ → Timestamp → List (TimeSegment d) → List (TimeSegment d)
  advance n w ts q = extended n w ts q (back q)

  push-trim :
      (c : ℕ) (ts : Timestamp) (q : List (TimeSegment d))
      → length q ≤ max c 1
      → push d c ts q ≡ trim (max c 1) (q ++ fresh d ts ∷ [])
  unfolding push
  push-trim c ts [] h = ground arith
  push-trim c ts (s ∷ q) h =
      ground (arith, trim_short (max c 1) (q ++ fresh d ts ∷ []), length-append q (fresh d ts ∷ []))

  back-push :
      (c : ℕ) (ts : Timestamp) (q : List (TimeSegment d)) → back (push d c ts q) ≡ some (fresh d ts)
  unfolding push
  back-push c ts q = back-append (if leb c (length q) then tail q else q) (fresh d ts)

  length-push :
      (c : ℕ) (ts : Timestamp) (q : List (TimeSegment d))
      → length q ≤ max c 1
      → length (push d c ts q) ≤ max c 1
  length-push c ts q h = rw (push-trim c ts q h) (length-trim (max c 1) (q ++ fresh d ts ∷ []))

  add-eq-some : (t w : ℕ) → t + w < duration_limit → add t w ≡ some (t + w)
  unfolding add
  add-eq-some t w h = ground arith

  -- One round of the loop, on each branch.
  fill_empty :
      (w c f : ℕ) (ts : Timestamp) (q : List (TimeSegment d))
      → back q ≡ none
      → fill d w c (suc f) ts q ≡ fill d w c f ts (push d c ts q)
  unfolding fill
  fill_empty w c f ts q h = rw (h, fill)

  fill_done :
      (w c f : ℕ) (ts : Timestamp) (q : List (TimeSegment d)) (s : TimeSegment d)
      → back q ≡ some s
      → ts ≤ s.ts
      → fill d w c (suc f) ts q ≡ done q
  unfolding fill
  fill_done w c f ts q s h l = rw (h, fill) (ground arith)

  fill_round :
      (w c f : ℕ) (ts : Timestamp) (q : List (TimeSegment d)) (s : TimeSegment d)
      → back q ≡ some s
      → s.ts < ts
      → s.ts + w < duration_limit
      → fill d w c (suc f) ts q ≡ fill d w c f ts (push d c (s.ts + w) q)
  unfolding fill
  fill_round w c f ts q s h l b = rw (h, fill) (ground (arith, add-eq-some s.ts w b))

  trim-push-gap :
      (w c k : ℕ) (t : Timestamp) (q : List (TimeSegment d))
      → length q ≤ max c 1
      → trim (max c 1) (push d c t q ++ gap w t k) ≡ trim (max c 1) (q ++ fresh d t ∷ gap w t k)
  trim-push-gap w c k t q h =
      ap (λ l. trim (max c 1) (l ++ gap w t k)) (push-trim c t q h)
      ∙ trim-trim-append (max c 1) (q ++ fresh d t ∷ []) (gap w t k)
      ∙ ap (trim (max c 1)) (append_assoc q (fresh d t ∷ []) (gap w t k))

  -- With more fuel than rounds, the loop returns the store extended by a segment for each round.
  fill-gap :
      (k w c f : ℕ) (ts : Timestamp) (q : List (TimeSegment d)) (s : TimeSegment d)
      → 0 < w
      → back q ≡ some s
      → length q ≤ max c 1
      → s.ts + k * w ≡ ts
      → ts < duration_limit
      → k < f
      → fill d w c f ts q ≡ done (trim (max c 1) (q ++ gap w s.ts k))
  fill-gap k w c zero ts q s hw hb hl e b hf = absurd (omega arith)
  fill-gap zero w c (suc f) ts q s hw hb hl e b hf =
      fill_done w c f ts q s hb (omega arith)
      ∙ ap done (sym (rw append-nil (trim_short (max c 1) q hl)))
  fill-gap (suc k) w c (suc f) ts q s hw hb hl e b hf =
      fill_round w c f ts q s hb (omega arith) (omega arith)
      ∙ fill-gap k w c f ts (push d c (s.ts + w) q) (fresh d (s.ts + w)) hw
          (back-push c (s.ts + w) q) (length-push c (s.ts + w) q hl) (omega arith) b (omega arith)
      ∙ ap done (trim-push-gap w c k (s.ts + w) q hl)

  -- The same, at any timestamp.
  fill-last :
      (w c : ℕ) (ts : Timestamp) (q : List (TimeSegment d)) (s : TimeSegment d)
      → 0 < w
      → back q ≡ some s
      → length q ≤ max c 1
      → ts < duration_limit
      → ts % w ≡ 0
      → s.ts % w ≡ 0
      → fill d w c (suc (suc ts)) ts q ≡ done (trim (max c 1) (q ++ gap w s.ts ((ts - s.ts) / w)))
  fill-last w c ts q s hw hb hl b ht hs = elim (Bool-cases (leb ts s.ts)) [
    | inl old ↦
        fill_done w c (suc ts) ts q s hb (leb→le ts s.ts old)
        ∙ ap done (
            sym (
              rw (no_windows w ts s.ts (leb→le ts s.ts old), append-nil)
                (trim_short (max c 1) q hl)))
    | inr newer ↦
        fill-gap ((ts - s.ts) / w) w c (suc (suc ts)) ts q s hw hb hl
          (windows_exact w ts s.ts (ground arith) ht hs) b (windows_few w ts s.ts hw)
  ]

  push-nil : (c : ℕ) (ts : Timestamp) → push d c ts [] ≡ fresh d ts ∷ []
  unfolding push
  push-nil c ts = ground arith

  back-eq-none : (q : List (TimeSegment d)) → back q ≡ none → q ≡ []
  back-eq-none [] h = refl
  back-eq-none (x ∷ []) h = cc
  back-eq-none (x ∷ y ∷ q) h = let e = back-eq-none (y ∷ q) h in cc

  -- The loop from any store that fits: it never runs out of fuel and never panics.
  pub fill-advance :
      (w c : ℕ) (ts : Timestamp) (q : List (TimeSegment d))
      → 0 < w
      → length q ≤ max c 1
      → ts < duration_limit
      → ts % w ≡ 0
      → ((s : TimeSegment d) → back q ≡ some s → s.ts % w ≡ 0)
      → fill d w c (suc (suc ts)) ts q ≡ done (advance (max c 1) w ts q)
  fill-advance w c ts [] hw hl b ht hs =
      fill_empty w c (suc ts) ts [] refl
      ∙ fill_done w c ts ts (push d c ts []) (fresh d ts) (back-push c ts []) (omega arith)
      ∙ ap done (push-nil c ts)
  fill-advance w c ts (x ∷ q) hw hl b ht hs = elim (Option-cases (back (x ∷ q))) [
    | inl empty ↦ let e = back-eq-none (x ∷ q) empty in cc
    | inr (s, last) ↦
        fill-last w c ts (x ∷ q) s hw last hl b ht (hs s last)
        ∙ ap (λ o. done (extended (max c 1) w ts (x ∷ q) o)) (sym last)
  ]
