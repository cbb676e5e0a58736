-- ===== src/Ui/Sparkline/Examples.antt =====
-- The theorem on the graph, for a store of three segments and a graph of two points.
use ptraf.Shared.{◌≡◌, refl, none, [], ◌∷◌, arith}
use ptraf.Store.Dash.{simple_dash}
use ptraf.Store.Segment.{default_segment}
use ptraf.Store.Series.{Store, oldest}
use ptraf.Store.Series.Invariant.{IsStore}
use ptraf.Ui.Filter.{unfiltered}
use ptraf.Ui.Sparkline.{TrafficSparkline, collect_points}
use ptraf.Ui.Sparkline.Sorted.{Sorted}
use ptraf.Ui.Sparkline.Points.{Earlier}
use ptraf.Ui.Sparkline.Ordered.{Covered, collect_points-Sorted}
use ptraf.Common.Types.{rx}
use ptraf.Store.Socket.{all}
use ptraf.Store.Series.{at_back}
use ptraf.Store.Writers.{System, Step, moved, changed, here, next, writing, viewing}
use ptraf.Store.Writers.Invariant.{IsSystem}
use ptraf.Store.Segment.Threads.{Op, count_packet}
use ptraf.Store.Segment.Threads
use ptraf.Ui.Sparkline.{default_sparkline}
use ptraf.Ui.Sparkline.Steady.{collect_points-Reach}
use ptraf.Std.Bytes.{little}
use ptraf.Shared.{
  ℕ, ◌+◌, ◌*◌, ◌/◌, max, some, List, length, get_elem?, back, unwrap_or, ltb, none, if◌then◌else◌,
}
use ptraf.Shared.Texts.{Text}
use ptraf.Ui.Format.{Floats}
use ptraf.Ui.Sparkline.{DataPoint, output_interval}
use ptraf.Ui.Sparkline.Graph.{draw_graph}
use ptraf.Ui.Sparkline.Columns.{draw_graph_lem, column}

abbrev three_segments : Store simple_dash
three_segments = record {
  window = 250;
  capacity = 3;
  segments =
      record { ts = 750; segment = default_segment simple_dash }
      ∷ record { ts = 1000; segment = default_segment simple_dash }
      ∷ record { ts = 1250; segment = default_segment simple_dash }
      ∷ [];
}

three_segments-IsStore : IsStore three_segments
three_segments-IsStore = record {
  window_pos = omega arith;
  window_fits = omega arith;
  bounded = omega arith;
  in_windows = (refl, refl, (refl, refl, refl));
}

abbrev graph : TrafficSparkline
graph = record {
  filter = unfiltered;
  dataset = record { ts = 500; rx = 1; tx = 2 } ∷ record { ts = 750; rx = 3; tx = 4 } ∷ [];
  reverse_buffer = [];
}

-- The point of 500 is dropped, that of 1000 is new, and that of 1250 is yet to come.
collected :
    (collect_points simple_dash graph three_segments none).dataset
    ≡ record { ts = 750; rx = 3; tx = 4 } ∷ record { ts = 1000; rx = 0; tx = 0 } ∷ []
unfolding collect_points oldest
collected = refl

collect_points-Sorted_example :
    Sorted Earlier (collect_points simple_dash graph three_segments none).dataset
    × Covered simple_dash
        (oldest simple_dash three_segments)
        (collect_points simple_dash graph three_segments none).dataset
    × ((collect_points simple_dash graph three_segments none).reverse_buffer ≡ [])
collect_points-Sorted_example =
    collect_points-Sorted simple_dash graph three_segments none three_segments-IsStore
      ((omega arith, tt), (tt, tt)) refl

-- One task is storing a packet while another one views the segments.
abbrev packet : Op
packet = count_packet rx 100 all

abbrev storing : System simple_dash
storing = record {
  store = three_segments;
  readers = 2;
  tasks = writing (packet ∷ []) ∷ viewing 1 ∷ [];
}

abbrev stored : System simple_dash
stored = record {
  store = record three_segments {
    segments = at_back simple_dash (λ g. Threads.step simple_dash g packet) three_segments.segments;
  };
  readers = 2;
  tasks = writing [] ∷ viewing 1 ∷ [];
}

storing-IsSystem : IsSystem storing
storing-IsSystem = record {
  store = three_segments-IsStore;
  readers = refl;
  tasks = (omega arith, (tt, tt));
}

abbrev stores : Step little storing stored
stores =
    moved [] (viewing 1 ∷ []) (writing (packet ∷ [])) (writing []) refl refl (changed packet [])

collect_points-Reach_example :
    collect_points simple_dash default_sparkline stored.store none
    ≡ collect_points simple_dash default_sparkline storing.store none
unfolding default_sparkline
collect_points-Reach_example =
    collect_points-Reach little default_sparkline none storing stored (next here stores)
      storing-IsSystem (tt, (writing (packet ∷ []) ∷ [], viewing 1, [], refl, refl)) refl

-- Whole numbers for the floating-point ones, and the value of the last point for the interpolation.
abbrev whole : Floats
whole = record {
  F = ℕ;
  of_nat = λ n. n;
  add = ◌+◌;
  mul = ◌*◌;
  div = ◌/◌;
  max = max;
  round = λ n. n;
  tenth = 0;
  to_nat = λ n. n;
  secs = λ n. n;
  interp = λ ts vs x. unwrap_or (back vs) 0;
  format_size = λ n. [];
}

abbrev point : DataPoint
point = record { ts = 1000; rx = 500; tx = 250 }

interval_80 : output_interval 250 4 80 ≡ some 9
unfolding output_interval
interval_80 = refl

-- The points of more windows than the frame has room for cover it all.
abbrev points : List DataPoint
points = point ∷ point ∷ point ∷ point ∷ []

draw_graph_lem_example :
    (bars : List ℕ) × (scale : ℕ) × (title : Text) × (draw_graph whole 250 4 80 points
      ≡ some (bars, scale, title))
    × (length bars ≡ 80)
    × (get_elem? bars 40 ≡ (if ltb 40 80 then some (column whole 250 9 points 40) else none))
draw_graph_lem_example = draw_graph_lem whole 250 4 80 9 points 40 interval_80
