-- ===== src/Ui/Drawing/Examples.antt =====
-- The theorem on drawings, for the user interface as it starts and a store of three segments.
use ptraf.Shared.{◌<◌, ◌≡◌, refl, false, some, back, option_map, arith}
use ptraf.Shared.Results.{done}
use ptraf.Clock.{ClockNano, u64_mod}
use ptraf.Store.Dash.{simple_dash}
use ptraf.Store.Series.Invariant.{IsStore}
use ptraf.Store.Series.Operations.{advanced, window_of}
use ptraf.Store.Series.Newest.{latest}
use ptraf.Store.Examples.{store, store-IsStore}
use ptraf.Ui.Term.{simple_term}
use ptraf.Ui.App.{Ui, default_ui}
use ptraf.Ui.App.Keeping.{view_table, view_filter, view_sparkline}
use ptraf.Ui.Filter.{CustomFilter}
use ptraf.Ui.Sparkline.{collect_points, output_interval}
use ptraf.Ui.Drawing.{render}
use ptraf.Ui.Drawing.Keeping.{Drawn, render_total}

abbrev clock : ClockNano
clock = record { start = 0; wall_time = 0 }

abbrev ui : Ui simple_term
ui = default_ui simple_term

newest_fits : latest simple_dash (window_of simple_dash store 1100) (back store.segments) < u64_mod
newest_fits = omega arith

interval_80 : output_interval 250 store.capacity 80 ≡ some 9
unfolding output_interval
interval_80 = refl

render_total_example :
    (drawn : Ui simple_term) × (render simple_dash simple_term ui store clock 1100 80
      ≡ done (drawn, advanced simple_dash store 1100))
    × IsStore (advanced simple_dash store 1100)
    × (drawn.dirty ≡ false)
    × (drawn.filter ≡ ui.filter)
    × (drawn.custom_filter ≡ ui.custom_filter)
    × (drawn.paused ≡ ui.paused)
    × (view_filter drawn.view ≡ view_filter ui.view)
    × (view_sparkline drawn.view
        ≡ collect_points simple_dash
            (view_sparkline ui.view)
            (advanced simple_dash store 1100)
            (option_map (λ (f : CustomFilter). f.interpretor) ui.custom_filter))
    × Drawn simple_term ui.paused (view_table ui.view) (view_table drawn.view)
render_total_example =
    render_total simple_dash simple_term ui store clock 1100 80 store-IsStore (9, interval_80)
      (omega arith) newest_fits
