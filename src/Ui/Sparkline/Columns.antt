-- ===== src/Ui/Sparkline/Columns.antt =====
-- ptraf/src/ui/traffic_sparkline.rs: the columns of the graph, each by itself.
use ptraf.Shared.{
  ℕ, zero, suc, ◌+◌, ◌-◌, ◌%◌, true, false, ◌≤◌, ◌<◌, ◌≡◌, refl, sym, ap, ◌∙◌, List, [], ◌∷◌, ◌++◌,
  map, length, length-append, get_elem?, some, none, option_map, if◌then◌else◌, ltb, Bool,
  Bool-cases, inl, inr, arith, tests,
}
use ptraf.Shared.Texts.{Text}
use ptraf.Clock.{u64_mod}
use ptraf.Ui.Format.{Floats}
use ptraf.Ui.Sparkline.{DataPoint, output_interval}
use ptraf.Ui.Sparkline.Graph.{
  input_ts, input_val, buf_len, zeros, samples, interpolate, output, maximum, but_last, scale_of,
  title_of, draw_graph,
}

not_below : (i n : ℕ) → ltb i n ≡ false → n ≤ i
not_below i n h = ground arith

module _ (fl : Floats) where
  open fl use {F, of_nat, to_nat}

  length-zeros : (n : ℕ) → length (zeros fl n) ≡ n
  unfolding zeros
  length-zeros zero = refl
  length-zeros (suc n) = ap suc (length-zeros n)

  length-samples : (at : F → F) (idx n : ℕ) → length (samples fl at idx n) ≡ n
  unfolding samples
  length-samples at idx zero = refl
  length-samples at idx (suc n) = ap suc (length-samples at (suc idx) n)

  length-interpolate :
      (ts vs : List F) (n : ℕ) (interval : F) → length (interpolate fl ts vs n interval) ≡ n
  unfolding interpolate
  length-interpolate [] vs n interval = length-zeros n
  length-interpolate (t ∷ ts) [] n interval = length-zeros n
  length-interpolate (t ∷ ts) (v ∷ vs) n interval =
      length-samples (λ idx. fl.interp (t ∷ ts) (v ∷ vs) (fl.add (fl.mul interval idx) t)) 0 n

  buf_len-le :
      (window interval width : ℕ) (points : List DataPoint)
      → buf_len fl window interval width points ≤ width
  unfolding buf_len
  buf_len-le window interval width points = omega arith

  length-output :
      (window interval width : ℕ) (points : List DataPoint)
      → length (output fl window interval width points) ≡ suc width
  unfolding output
  length-output window interval width points =
      let n = buf_len fl window interval width points in
      let front =
        interpolate fl (input_ts fl points) (input_val fl window points) n (fl.secs interval) in
      let a = length-append front (zeros fl (suc width - n)) in
      let b =
        length-interpolate (input_ts fl points) (input_val fl window points) n (fl.secs interval) in
      let c = length-zeros (suc width - n) in
      let le = buf_len-le window interval width points in omega arith

  get_elem?-zeros : (n i : ℕ) → i < n → get_elem? (zeros fl n) i ≡ some (of_nat 0)
  unfolding zeros
  get_elem?-zeros zero i h = absurd (omega arith)
  get_elem?-zeros (suc n) zero h = refl
  get_elem?-zeros (suc n) (suc i) h = get_elem?-zeros n i (omega arith)

  module _ {A : Type 0} where
    get_elem?-behind :
        (xs ys : List A) (i : ℕ) → get_elem? (xs ++ ys) (length xs + i) ≡ get_elem? ys i
    get_elem?-behind [] ys i = let e : 0 + i ≡ i = omega arith in ap (get_elem? ys) e
    get_elem?-behind (x ∷ xs) ys i =
        ap (get_elem? (x ∷ xs ++ ys)) (suc-add (length xs) i) ∙ get_elem?-behind xs ys i
      where
        suc-add : (n m : ℕ) → suc n + m ≡ suc (n + m)
        suc-add n m = omega arith

    get_elem?-front :
        (xs ys : List A) (i : ℕ) → i < length xs → get_elem? (xs ++ ys) i ≡ get_elem? xs i
    get_elem?-front [] ys i h = absurd (omega arith)
    get_elem?-front (x ∷ xs) ys zero h = refl
    get_elem?-front (x ∷ xs) ys (suc i) h = get_elem?-front xs ys i (omega arith)

    length-but_last : (xs : List A) → length (but_last fl xs) ≡ length xs - 1
    unfolding but_last
    length-but_last [] = refl
    length-but_last (x ∷ []) = refl
    length-but_last (x ∷ y ∷ xs) = let h = length-but_last (y ∷ xs) in omega arith

    get_elem?-but_last :
        (xs : List A) (i : ℕ) → suc i < length xs → get_elem? (but_last fl xs) i ≡ get_elem? xs i
    unfolding but_last
    get_elem?-but_last [] i h = absurd (omega arith)
    get_elem?-but_last (x ∷ []) i h = absurd (omega arith)
    get_elem?-but_last (x ∷ y ∷ xs) zero h = refl
    get_elem?-but_last (x ∷ y ∷ xs) (suc i) h = get_elem?-but_last (y ∷ xs) i (omega arith)

    get_elem?-past : (xs : List A) (i : ℕ) → length xs ≤ i → get_elem? xs i ≡ none
    get_elem?-past [] i h = refl
    get_elem?-past (x ∷ xs) zero h = absurd (omega arith)
    get_elem?-past (x ∷ xs) (suc i) h = get_elem?-past xs i (omega arith)

  length-map : {A B : Type 0} (f : A → B) (xs : List A) → length (map f xs) ≡ length xs
  length-map f [] = refl
  length-map f (x ∷ xs) = ap suc (length-map f xs)

  get_elem?-map :
      {A B : Type 0} (f : A → B) (xs : List A) (i : ℕ)
      → get_elem? (map f xs) i ≡ option_map f (get_elem? xs i)
  get_elem?-map f [] i = refl
  get_elem?-map f (x ∷ xs) zero = refl
  get_elem?-map f (x ∷ xs) (suc i) = get_elem?-map f xs i

module _ (fl : Floats) where
  open fl use {F, of_nat, to_nat, secs, add, mul, div, round, interp}

  -- How many columns the points cover, if the frame has them.
  abbrev pub covered : ℕ → ℕ → List DataPoint → ℕ
  covered window interval points =
      to_nat (round (mul (div (secs window) (secs interval)) (of_nat (length points))))

  -- The rate of the points, in the time of a window, as it is interpolated at a column.
  abbrev pub rate_at : ℕ → ℕ → List DataPoint → ℕ → F
  rate_at window interval [] i = of_nat 0
  rate_at window interval (p ∷ ps) i =
      interp (map (λ (q : DataPoint). secs q.ts) (p ∷ ps))
        (map (λ (q : DataPoint). div (of_nat ((q.rx + q.tx) % u64_mod)) (secs window)) (p ∷ ps))
        (add (mul (secs interval) (of_nat i)) (secs p.ts))

  -- The column `i`: the rate there where the points reach so far, and else 0.
  abbrev pub column : ℕ → ℕ → List DataPoint → ℕ → ℕ
  column window interval points i = to_nat (
      if ltb i (covered window interval points) then rate_at window interval points i else of_nat 0)

  get_elem?-samples :
      (at : F → F) (idx n i : ℕ)
      → i < n
      → get_elem? (samples fl at idx n) i ≡ some (at (of_nat (idx + i)))
  unfolding samples
  get_elem?-samples at idx zero i h = absurd (omega arith)
  get_elem?-samples at idx (suc n) zero h =
      let e : idx ≡ idx + 0 = omega arith in ap (λ k. some (at (of_nat k))) e
  get_elem?-samples at idx (suc n) (suc i) h =
      let e : suc idx + i ≡ idx + suc i = omega arith in
      get_elem?-samples at (suc idx) n i (omega arith) ∙ ap (λ k. some (at (of_nat k))) e

  get_elem?-interpolate :
      (window interval : ℕ) (points : List DataPoint) (n i : ℕ)
      → i < n
      → get_elem?
          (interpolate fl (input_ts fl points) (input_val fl window points) n (secs interval))
          i
        ≡ some (rate_at window interval points i)
  unfolding interpolate input_ts input_val
  get_elem?-interpolate window interval [] n i h = get_elem?-zeros fl n i h
  get_elem?-interpolate window interval (p ∷ ps) n i h =
      get_elem?-samples
        (λ x.
          interp (input_ts fl (p ∷ ps)) (input_val fl window (p ∷ ps))
            (add (mul (secs interval) x) (secs p.ts)))
        0 n i h
      ∙ ap (λ k. some (rate_at window interval (p ∷ ps) k)) (zero_add i)
    where
      zero_add : (k : ℕ) → 0 + k ≡ k
      zero_add k = omega arith

  get_elem?-output :
      (window interval width : ℕ) (points : List DataPoint) (i : ℕ)
      → i < width
      → option_map to_nat (get_elem? (output fl window interval width points) i)
        ≡ some (column window interval points i)
  unfolding output buf_len
  get_elem?-output window interval width points i k =
      elim (Bool-cases (ltb i (covered window interval points))) [
        | inl reached ↦
            ap (option_map to_nat) (
              get_elem?-front fl front (zeros fl (suc width - n)) i (inside reached)
              ∙ get_elem?-interpolate window interval points n i (inside' reached))
            ∙ chosen (sym reached)
        | inr beyond ↦
            ap (option_map to_nat) (
              ap (get_elem? (front ++ zeros fl (suc width - n))) (sym (place beyond))
              ∙ get_elem?-behind fl front (zeros fl (suc width - n)) (i - n)
              ∙ get_elem?-zeros fl (suc width - n) (i - n) (left beyond))
            ∙ chosen (sym beyond)
      ]
    where
      chosen :
          {a b : Bool}
          → a ≡ b
          → some (to_nat (if a then rate_at window interval points i else of_nat 0))
            ≡ some (to_nat (if b then rate_at window interval points i else of_nat 0))
      chosen e =
          ap (λ b. some (to_nat (if b then rate_at window interval points i else of_nat 0))) e

      n : ℕ
      n = buf_len fl window interval width points

      front : List F
      front = interpolate fl (input_ts fl points) (input_val fl window points) n (secs interval)

      size : length front ≡ n
      size =
          length-interpolate fl (input_ts fl points) (input_val fl window points) n (secs interval)

      inside' : ltb i (covered window interval points) ≡ true → i < n
      inside' h = omega tests

      inside : ltb i (covered window interval points) ≡ true → i < length front
      inside h = let a = inside' h in let e = size in omega arith

      place : ltb i (covered window interval points) ≡ false → length front + (i - n) ≡ i
      place h = let e = size in let far = not_below i _ h in omega arith

      left : ltb i (covered window interval points) ≡ false → i - n < suc width - n
      left h = let far = not_below i _ h in omega arith

  -- On a frame on which the time between two columns is a `Duration`, and for whatever points and
  -- floating-point arithmetic: the graph has exactly as many columns as the frame, and each column
  -- is the interpolated rate as far as the points reach, and 0 behind them.
  pub draw_graph_lem :
      (window max_capacity width interval : ℕ) (points : List DataPoint) (i : ℕ)
      → output_interval window max_capacity width ≡ some interval
      → (bars : List ℕ) × (scale : ℕ) × (title : Text) × (draw_graph fl window max_capacity width
            points
          ≡ some (bars, scale, title))
        × (length bars ≡ width)
        × (get_elem? bars i
            ≡ (if ltb i width then some (column window interval points i) else none))
  unfolding draw_graph
  draw_graph_lem window max_capacity width interval points i is =
      let values = output fl window interval width points in
      let bars = but_last fl (map to_nat values) in
      let a = length-output fl window interval width points in
      let b = length-map fl to_nat values in
      let c = length-but_last fl (map to_nat values) in
      let size : length bars ≡ width = omega arith in
      (
        bars,
        scale_of fl (maximum fl (of_nat 0) values),
        title_of fl (maximum fl (of_nat 0) values),
        rw is refl,
        size,
        elim (Bool-cases (ltb i width)) [
          | inl shown ↦ rw shown (
              get_elem?-but_last fl (map to_nat values) i (omega tests)
              ∙ get_elem?-map fl to_nat values i
              ∙ get_elem?-output window interval width points i (omega tests))
          | inr past ↦
              rw past (get_elem?-past fl bars i (let far = not_below i width past in omega arith))
        ],
      )
