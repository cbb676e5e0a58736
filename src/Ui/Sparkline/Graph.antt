-- ===== src/Ui/Sparkline/Graph.antt =====
-- ptraf/src/ui/traffic_sparkline.rs, `TrafficSparklineView::render`: the columns of the graph. The
-- computations with floating-point numbers are a parameter.
use ptraf.Shared.{
  ℕ, zero, suc, ◌+◌, ◌-◌, ◌%◌, min, List, [], ◌∷◌, ◌++◌, map, length, Option, some, option_map,
}
use ptraf.Shared.Texts.{Text, codes}
use ptraf.Clock.{u64_mod}
use ptraf.Ui.Format.{Floats, format_rate}
use ptraf.Ui.Sparkline.{DataPoint, output_interval}

module _ (fl : Floats) where
  open fl use {F, of_nat, add, mul, div, max, round, tenth, to_nat, secs, interp}

  -- `input_buffer_ts` and `input_buffer_val`.
  unfoldable pub input_ts : List DataPoint → List F
  input_ts points = map (λ (p : DataPoint). secs p.ts) points

  unfoldable pub input_val : ℕ → List DataPoint → List F
  input_val window points =
      map (λ (p : DataPoint). div (of_nat ((p.rx + p.tx) % u64_mod)) (secs window)) points

  -- How many columns the points cover, at most the width.
  unfoldable pub buf_len : ℕ → ℕ → ℕ → List DataPoint → ℕ
  buf_len window interval width points =
      min (to_nat (round (mul (div (secs window) (secs interval)) (of_nat (length points))))) width

  unfoldable pub zeros : ℕ → List F
  zeros zero = []
  zeros (suc n) = of_nat 0 ∷ zeros n

  -- The loop of `interpolate`, from a column on.
  unfoldable pub samples : (F → F) → ℕ → ℕ → List F
  samples at idx zero = []
  samples at idx (suc n) = at (of_nat idx) ∷ samples at (suc idx) n

  -- `interpolate` on the first so many columns of the output buffer.
  unfoldable pub interpolate : List F → List F → ℕ → F → List F
  unfolding samples zeros
  interpolate [] vals n interval = zeros n
  interpolate (start ∷ ts) [] n interval = zeros n
  interpolate (start ∷ ts) (v ∷ vals) n interval =
      samples (λ idx. interp (start ∷ ts) (v ∷ vals) (add (mul interval idx) start)) 0 n

  -- The output buffer, of one column more than the width.
  unfoldable pub output : ℕ → ℕ → ℕ → List DataPoint → List F
  unfolding interpolate buf_len input_ts input_val zeros
  output window interval width points =
      let n = buf_len window interval width points in
      interpolate (input_ts points) (input_val window points) n (secs interval)
      ++ zeros (suc width - n)

  unfoldable pub maximum : F → List F → F
  maximum m [] = m
  maximum m (v ∷ vs) = maximum (max m v) vs

  -- `&data[..data.len().saturating_sub(1)]`.
  unfoldable pub but_last : {A : Type 0} → List A → List A
  but_last [] = []
  but_last (x ∷ []) = []
  but_last (x ∷ y ∷ xs) = x ∷ but_last (y ∷ xs)

  unfoldable pub scale_of : F → ℕ
  scale_of m = to_nat (add m (mul m tenth))

  unfoldable pub title_of : F → Text
  unfolding format_rate
  title_of m = codes " max: " ++ (format_rate fl (some 1000000000) (to_nat m) ++ codes "/s")

  -- The columns, their scale and the title, unless the interval is no `Duration`.
  unfoldable pub draw_graph : ℕ → ℕ → ℕ → List DataPoint → Option (List ℕ × ℕ × Text)
  unfolding output_interval output maximum but_last scale_of title_of
  draw_graph window max_capacity width points =
      option_map
        (λ interval.
          let values = output window interval width points in
          let m = maximum (of_nat 0) values in
          (but_last (map to_nat values), scale_of m, title_of m))
        (output_interval window max_capacity width)
