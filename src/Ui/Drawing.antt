-- ===== src/Ui/Drawing.antt =====
-- ptraf/src/ui.rs, ptraf/src/ui/socktable.rs and ptraf/src/ui/traffic_sparkline.rs: what a drawing
-- of the user interface does to its state and to the store. What it puts on the screen is left out.
pub mod Keeping
mod Examples
use ptraf.Shared.{
  ℕ, Bool, true, false, Option, none, some, option_map, and_then, if◌then◌else◌, ◌==◌,
}
use ptraf.Shared.Results.{Outcome, done, panicked, ◌>>=◌, or_panic}
use ptraf.Clock.{Timestamp, ClockNano, saturating_elapsed_since}
use ptraf.Filter.Interpretor.{Interpretor}
use ptraf.Store.Dash.{Dash}
use ptraf.Store.Series.{Store, oldest_timestamp}
use ptraf.Ui.Filter.{CustomFilter}
use ptraf.Ui.Term.{Term}
use ptraf.Ui.FilterEditor.{interpretor}
use ptraf.Ui.SocketTable.{SocketTable, collect}
use ptraf.Ui.SocketTableView.{SocketTableView}
use ptraf.Ui.Sparkline.{TrafficSparkline, collect_points, output_interval}
use ptraf.Ui.App.{
  MainView, RemoteIpView, ProcessView, RootView, main_view, process_view, remote_ip_view, Ui,
}

-- `UiContext`.
pub record Context (d : Dash) : Type 0 where
  pub ts : Timestamp
  pub store : Store d
  pub clock : ClockNano
  pub filter_interpretor : Option Interpretor
  pub paused : Bool

-- The time over which the rates of a table are counted, unless it is 0.
unfoldable pub rate_duration : SocketTable → Option ℕ
unfolding saturating_elapsed_since
rate_duration self = and_then self.rate_collection_range λ range.
    let (start, end) = range in
    let duration = saturating_elapsed_since start end in
    if duration == 0 then none else some duration

module _ (d : Dash) (t : Term) where
  -- `SocketTableView::render`: the table is collected anew unless the program is paused.
  unfoldable pub render_table : SocketTableView t → Context d → Outcome (SocketTableView t)
  unfolding collect interpretor
  render_table self ctx =
      if ctx.paused
      then done self
      else or_panic
          (collect d self.socket_table ctx.ts ctx.clock ctx.store (interpretor t self.filter_view))
        >>= λ table. done (record self { socket_table = table })

  -- `TrafficSparklineView::render`, on a rectangle of a width.
  unfoldable pub render_sparkline : TrafficSparkline → ℕ → Context d → Outcome TrafficSparkline
  unfolding collect_points output_interval
  render_sparkline self width ctx =
      or_panic (output_interval ctx.store.window ctx.store.capacity width) >>= λ _.
      done (collect_points d self ctx.store ctx.filter_interpretor)

  unfoldable pub render_main : MainView t → ℕ → Context d → Outcome (MainView t)
  unfolding render_table render_sparkline
  render_main self width ctx = render_sparkline self.traffic_sparkline_view width ctx >>= λ graph.
      render_table self.sock_table_view ctx >>= λ table.
      done (record self { traffic_sparkline_view = graph; sock_table_view = table })

  unfoldable pub render_remote_ip : RemoteIpView t → ℕ → Context d → Outcome (RemoteIpView t)
  unfolding render_table render_sparkline
  render_remote_ip self width ctx =
      render_sparkline self.traffic_sparkline_view width ctx >>= λ graph.
      render_table self.sock_table_view ctx >>= λ table.
      done (record self { traffic_sparkline_view = graph; sock_table_view = table })

  unfoldable pub render_process : ProcessView t → ℕ → Context d → Outcome (ProcessView t)
  unfolding render_table render_sparkline
  render_process self width ctx =
      render_sparkline self.traffic_sparkline_view width ctx >>= λ graph.
      render_table self.sock_table_view ctx >>= λ table.
      done (record self { traffic_sparkline_view = graph; sock_table_view = table })

  unfoldable pub render_view : RootView t → ℕ → Context d → Outcome (RootView t)
  unfolding render_main render_process render_remote_ip
  render_view (main_view v) width ctx = render_main v width ctx >>= λ v. done (main_view v)
  render_view (process_view v) width ctx = render_process v width ctx >>= λ v. done (process_view v)
  render_view (remote_ip_view v) width ctx =
      render_remote_ip v width ctx >>= λ v. done (remote_ip_view v)

  -- `Ui::render` at a time of the clock on a frame of a width, with the store after it.
  unfoldable pub render : Ui t → Store d → ClockNano → Timestamp → ℕ → Outcome (Ui t × Store d)
  unfolding oldest_timestamp render_view
  render self store clock now width = oldest_timestamp d store now >>= λ r.
      let ctx : Context d = record {
        ts = r.1;
        store = r.0;
        clock = clock;
        filter_interpretor = option_map (λ (f : CustomFilter). f.interpretor) self.custom_filter;
        paused = self.paused;
      } in
      render_view self.view width ctx >>= λ view.
      done (record self { dirty = false; view = view }, r.0)
