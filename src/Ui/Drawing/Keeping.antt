-- ===== src/Ui/Drawing/Keeping.antt =====
-- ptraf/src/ui.rs, `Ui::render`: what a drawing does to the user interface and the store.
use ptraf.Shared.{
  ℕ, some, ◌<◌, ◌≡◌, refl, ap, ◌∙◌, inl, inr, Bool, true, false, Bool-cases, option_map, All, back,
}
use ptraf.Shared.Results.{done, ◌>>=◌, or_panic}
use ptraf.Clock.{Timestamp, ClockNano, u64_mod}
use ptraf.Store.Dash.{Dash}
use ptraf.Store.Series.{Store}
use ptraf.Store.Series.Invariant.{IsStore}
use ptraf.Store.Series.Operations.{advanced, window_of, advanced-IsStore}
use ptraf.Store.Series.Newest.{latest, oldest_timestamp_lem}
use ptraf.Ui.Filter.{CustomFilter}
use ptraf.Ui.Term.{Term}
use ptraf.Ui.FilterEditor.{interpretor}
use ptraf.Ui.SocketTable.Collected.{Passes, collect-filter, collect_total}
use ptraf.Ui.SocketTableView.{SocketTableView}
use ptraf.Ui.App.{RootView, main_view, process_view, remote_ip_view, Ui}
use ptraf.Ui.App.Keeping.{view_table, view_filter, view_sparkline}
use ptraf.Ui.Sparkline.{TrafficSparkline, collect_points, output_interval}
use ptraf.Ui.Drawing.{
  Context, render_table, render_sparkline, render_main, render_remote_ip, render_process,
  render_view, render,
}

-- A frame on which the time between two columns of the graph is a `Duration`.
abbrev pub HasInterval : {d : Dash} → Store d → ℕ → Type 0
HasInterval s width = (n : ℕ) × (output_interval s.window s.capacity width ≡ some n)

module _ (t : Term) where
  -- A drawing leaves a table as it is while the program is paused; otherwise every row of it passes
  -- the filter of the table and the filter in the editor.
  abbrev pub Drawn : Bool → SocketTableView t → SocketTableView t → Type 0
  Drawn true v w = w ≡ v
  Drawn false v w =
      (w.filter_view ≡ v.filter_view)
      × (w.socket_table.filter ≡ v.socket_table.filter)
      × (w.selected ≡ v.selected)
      × All (Passes v.socket_table.filter (interpretor t v.filter_view)) w.socket_table.dataset

module _ (d : Dash) (t : Term) where
  render_table_total :
      (v : SocketTableView t) (ctx : Context d)
      → IsStore ctx.store
      → ctx.ts < u64_mod
      → (w : SocketTableView t) × (render_table d t v ctx ≡ done w) × Drawn t ctx.paused v w
  unfolding render_table
  render_table_total v ctx h small = elim (Bool-cases ctx.paused) [
    | inl paused ↦ rw paused (v, refl, refl)
    | inr running ↦
        let (table, is, rows) =
          collect_total d v.socket_table ctx.ts ctx.clock ctx.store (interpretor t v.filter_view)
            h.window_pos h.window_fits small in
        rw running (
          record v { socket_table = table },
          ap (λ o. or_panic o >>= λ table. done (record v { socket_table = table })) is,
          (
            refl,
            collect-filter d v.socket_table ctx.ts ctx.clock ctx.store (interpretor t v.filter_view)
                is,
            refl,
            rows,
          ),
        )
  ]

  render_sparkline_total :
      (v : TrafficSparkline) (width : ℕ) (ctx : Context d)
      → HasInterval ctx.store width
      → render_sparkline d t v width ctx
        ≡ done (collect_points d v ctx.store ctx.filter_interpretor)
  unfolding render_sparkline
  render_sparkline_total v width ctx (n, h) =
      ap (λ o. or_panic o >>= λ _. done (collect_points d v ctx.store ctx.filter_interpretor)) h

  -- The graph and the table, one after the other, in whatever is made of them.
  drawn_both :
      {V : Type 0} (f : TrafficSparkline → SocketTableView t → V) (p : TrafficSparkline)
      (v : SocketTableView t) (width : ℕ) (ctx : Context d) {w : SocketTableView t}
      → HasInterval ctx.store width
      → render_table d t v ctx ≡ done w
      → (render_sparkline d t p width ctx >>= λ graph.
          render_table d t v ctx >>= λ table. done (f graph table))
        ≡ done (f (collect_points d p ctx.store ctx.filter_interpretor) w)
  drawn_both f p v width ctx h is =
      ap (λ o. o >>= λ graph. render_table d t v ctx >>= λ table. done (f graph table))
        (render_sparkline_total p width ctx h)
      ∙ ap
          (λ o. o >>= λ table. done (f (collect_points d p ctx.store ctx.filter_interpretor) table))
          is

  render_view_total :
      (v : RootView t) (width : ℕ) (ctx : Context d)
      → IsStore ctx.store
      → HasInterval ctx.store width
      → ctx.ts < u64_mod
      → (w : RootView t) × (render_view d t v width ctx ≡ done w)
        × (view_filter w ≡ view_filter v)
        × (view_sparkline w ≡ collect_points d (view_sparkline v) ctx.store ctx.filter_interpretor)
        × Drawn t ctx.paused (view_table v) (view_table w)
  unfolding render_view render_main render_process render_remote_ip
  render_view_total (main_view v) width ctx h i small =
      let (w, is, drawn) = render_table_total v.sock_table_view ctx h small in
      let view = λ (g : TrafficSparkline) (x : SocketTableView t). record v {
        traffic_sparkline_view = g;
        sock_table_view = x;
      } in
      (
        main_view
            (view (collect_points d v.traffic_sparkline_view ctx.store ctx.filter_interpretor) w),
        ap (λ o. o >>= λ v. done (main_view v))
            (drawn_both view v.traffic_sparkline_view v.sock_table_view width ctx i is),
        refl,
        refl,
        drawn,
      )
  render_view_total (process_view v) width ctx h i small =
      let (w, is, drawn) = render_table_total v.sock_table_view ctx h small in
      let view = λ (g : TrafficSparkline) (x : SocketTableView t). record v {
        traffic_sparkline_view = g;
        sock_table_view = x;
      } in
      (
        process_view
            (view (collect_points d v.traffic_sparkline_view ctx.store ctx.filter_interpretor) w),
        ap (λ o. o >>= λ v. done (process_view v))
            (drawn_both view v.traffic_sparkline_view v.sock_table_view width ctx i is),
        refl,
        refl,
        drawn,
      )
  render_view_total (remote_ip_view v) width ctx h i small =
      let (w, is, drawn) = render_table_total v.sock_table_view ctx h small in
      let view = λ (g : TrafficSparkline) (x : SocketTableView t). record v {
        traffic_sparkline_view = g;
        sock_table_view = x;
      } in
      (
        remote_ip_view
            (view (collect_points d v.traffic_sparkline_view ctx.store ctx.filter_interpretor) w),
        ap (λ o. o >>= λ v. done (remote_ip_view v))
            (drawn_both view v.traffic_sparkline_view v.sock_table_view width ctx i is),
        refl,
        refl,
        drawn,
      )

  -- For a store with its invariant, a time that fits 64 bits, segments that are not newer than such
  -- a time and a frame on which the graph has an interval: a drawing does not panic. It extends the store to the time, clears the mark that
  -- asks for a drawing, and keeps the filters, what the view is for and whether the program is
  -- paused. The points of the graph are collected with the custom filter of the program. While the
  -- program is paused the table stays as it was; otherwise it keeps its filter, its selected row and
  -- its editor, and every row of it passes the filter of the table and the filter in the editor.
  pub render_total :
      (self : Ui t) (store : Store d) (clock : ClockNano) (now : Timestamp) (width : ℕ)
      → IsStore store
      → HasInterval store width
      → now < u64_mod
      → latest d (window_of d store now) (back store.segments) < u64_mod
      → (ui : Ui t) × (render d t self store clock now width ≡ done (ui, advanced d store now))
        × IsStore (advanced d store now)
        × (ui.dirty ≡ false)
        × (ui.filter ≡ self.filter)
        × (ui.custom_filter ≡ self.custom_filter)
        × (ui.paused ≡ self.paused)
        × (view_filter ui.view ≡ view_filter self.view)
        × (view_sparkline ui.view
            ≡ collect_points d
                (view_sparkline self.view)
                (advanced d store now)
                (option_map (λ (f : CustomFilter). f.interpretor) self.custom_filter))
        × Drawn t self.paused (view_table self.view) (view_table ui.view)
  unfolding render
  render_total self store clock now width h i small newest =
      let ctx : Context d = record {
        ts = latest d (window_of d store now) (back store.segments);
        store = advanced d store now;
        clock = clock;
        filter_interpretor = option_map (λ (f : CustomFilter). f.interpretor) self.custom_filter;
        paused = self.paused;
      } in
      let valid = advanced-IsStore d store now h in
      let (view, is, same, points, drawn) = render_view_total self.view width ctx valid i newest in
      (
        record self { dirty = false; view = view },
        rw (oldest_timestamp_lem d store now h small) (
            ap
              (λ o. o >>= λ view.
                done (record self { dirty = false; view = view }, advanced d store now))
              is),
        valid,
        refl,
        refl,
        refl,
        refl,
        same,
        points,
        drawn,
      )
