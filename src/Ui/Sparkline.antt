-- ===== src/Ui/Sparkline.antt =====
-- ptraf/src/ui/traffic_sparkline.rs: the data points of the traffic graph. The sum of a data point
-- is written with the wrap-around of a release build.
pub mod Sorted
pub mod Points
pub mod Ordered
pub mod Steady
pub mod Graph
pub mod Columns
mod Examples
use mathlib.Core.List.{reverse}
use ptraf.Shared.{
  ℕ, ◌+◌, ◌-◌, ◌*◌, ◌/◌, ◌%◌, ◌==◌, Option, none, some, List, [], ◌∷◌, ◌++◌, map, ltb,
  if◌then◌else◌, option_map, unwrap_or, take_while, drop_while, back,
}
use ptraf.Clock.{u64_mod, duration_limit, Timestamp}
use ptraf.Filter.Interpretor.{Interpretor}
use ptraf.Filter.Interpretor
use ptraf.Store.Traffic.{Stat}
use ptraf.Store.Socket.{Socket, local_socket, socket_filterable}
use ptraf.Store.Dash.{Dash}
use ptraf.Store.Segment.{stat_by_interest, for_each_socket}
use ptraf.Store.Series.{Store, TimeSegment, oldest}
use ptraf.Ui.Filter.{Filter, unfiltered, interest}

pub record DataPoint : Type 0 where
  pub ts : Timestamp
  pub rx : ℕ
  pub tx : ℕ

pub record TrafficSparkline : Type 0 where
  pub filter : Filter
  pub dataset : List DataPoint
  pub reverse_buffer : List DataPoint

unfoldable pub default_sparkline : TrafficSparkline
default_sparkline = record { filter = unfiltered; dataset = []; reverse_buffer = [] }

unfoldable pub sparkline_with_filter : Filter → TrafficSparkline
sparkline_with_filter filter = record { filter = filter; dataset = []; reverse_buffer = [] }

abbrev rx_of : Option Stat → ℕ
rx_of none = 0
rx_of (some s) = s.rx

abbrev tx_of : Option Stat → ℕ
tx_of none = 0
tx_of (some s) = s.tx

abbrev skip_first : List DataPoint → List DataPoint
skip_first [] = []
skip_first (p ∷ ps) = ps

-- The time between two columns of the graph, `Duration::from_secs_f64` of the quotient in seconds.
-- It panics if that is no finite number, as for a width of 0, or more than a `Duration` can be. The
-- quotient is computed exactly here, and the subtraction wraps as in a release build.
unfoldable pub output_interval : ℕ → ℕ → ℕ → Option ℕ
output_interval window max_capacity width =
    let span = window * ((max_capacity + (u64_mod - 1)) % u64_mod) in
    if width == 0
    then none
    else if ltb (span / width) duration_limit
    then some (span / width)
    else none

module _ (d : Dash) where
  -- The closure that sums the sockets that the custom filter lets through.
  unfoldable pub add_socket : Interpretor → TimeSegment d → DataPoint → Socket → DataPoint
  unfolding stat_by_interest Interpretor.filter
  add_socket i s datapoint socket =
      let stat = stat_by_interest d s.segment (local_socket socket.local) in
      if Interpretor.filter i socket
      then record datapoint {
        rx = (datapoint.rx + rx_of stat) % u64_mod;
        tx = (datapoint.tx + tx_of stat) % u64_mod;
      }
      else datapoint

  unfoldable pub datapoint_of : Filter → Option Interpretor → TimeSegment d → DataPoint
  unfolding stat_by_interest for_each_socket add_socket interest
  datapoint_of filter (some i) s =
      for_each_socket d s.segment (add_socket i s) (record { ts = s.ts; rx = 0; tx = 0 })
  datapoint_of filter none s =
      let stat = stat_by_interest d s.segment (interest filter) in
      record { ts = s.ts; rx = rx_of stat; tx = tx_of stat }

  -- Without the data points that are older than the oldest segment.
  unfoldable pub discard : Option Timestamp → List DataPoint → List DataPoint
  discard none points = points
  discard (some oldest_ts) points = drop_while (λ p. ltb p.ts oldest_ts) points

  -- `TrafficSparkline::collect`: the new points of all segments after the last one collected, the
  -- newest segment excepted, since it is incomplete.
  unfoldable pub collect_points : TrafficSparkline → Store d → Option Interpretor → TrafficSparkline
  unfolding discard datapoint_of
  collect_points self store i =
      let start = unwrap_or (option_map (λ (p : DataPoint). p.ts) (back self.dataset)) 0 in
      let old = discard (option_map (λ (s : TimeSegment d). s.ts) (oldest d store)) self.dataset in
      let buffer =
        self.reverse_buffer
        ++ map (datapoint_of self.filter i)
            (take_while (λ s. ltb start s.ts) (reverse store.segments)) in
      record self { dataset = old ++ reverse (skip_first buffer); reverse_buffer = [] }
