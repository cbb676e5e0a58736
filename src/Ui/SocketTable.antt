-- ===== src/Ui/SocketTable.antt =====
-- ptraf/src/ui/socktable.rs: the table of sockets with their traffic, and its collection from the
-- store. The standard `HashMap` is an association list; the order of its values is not specified,
-- and the model's is one order.
pub mod Cache
pub mod Collected
pub mod Sums
pub mod Keys
pub mod Rows
pub mod Described
use mathlib.Core.List.{reverse}
use ptraf.Shared.{
  ℕ, ◌-◌, ◌*◌, max, ◌≡◌, Bool, true, false, not, ◌&&◌, Option, none, some, List, [], ◌∷◌, map,
  length, leb, ◌==◌, if◌then◌else◌, option_map, and_then, unwrap_or, take_while,
}
use ptraf.Std.Ip.{SocketAddr, addr_eq}
use ptraf.Clock.{Timestamp, ClockNano, trunc, saturating_elapsed_since, wall_time}
use ptraf.Filter.Interpretor.{Interpretor}
use ptraf.Filter.Interpretor
use ptraf.Store.Traffic.{Stat, default_stat, merge}
use ptraf.Store.Socket.{Socket, Interest, local_socket, match_interest, socket_filterable}
use ptraf.Store.Dash.{Dash}
use ptraf.Store.Segment.{stat_by_interest, for_each_socket}
use ptraf.Store.Series.{Store, TimeSegment}
use ptraf.Ui.Filter.{Filter, unfiltered, interest}

pub record SocketTableConfig : Type 0 where
  pub filter : Filter
  pub collection_window : ℕ
  pub rate_window : ℕ

unfoldable pub default_config : SocketTableConfig
default_config = record {
  filter = unfiltered;
  collection_window = 300000000000;
  rate_window = 1000000000;
}

unfoldable pub with_filter : SocketTableConfig → Filter → SocketTableConfig
with_filter self f = record self { filter = f }

unfoldable pub with_rate_window : SocketTableConfig → ℕ → SocketTableConfig
with_rate_window self w = record self { rate_window = w }

unfoldable pub with_collection_window : SocketTableConfig → ℕ → SocketTableConfig
with_collection_window self w = record self { collection_window = w }

pub record Entry : Type 0 where
  pub socket : Socket
  pub stat : Stat
  pub last_activity : ℕ
  pub rate_stat : Stat
  pub pid : ℕ

pub record SocketTable : Type 0 where
  pub filter : Filter
  pub dataset : List Entry
  pub rate_collection_range : Option (Timestamp × Timestamp)
  pub config : SocketTableConfig

-- `SocketTable::new`, and `build`.
unfoldable pub new : SocketTableConfig → SocketTable
new config = record {
  filter = config.filter;
  dataset = [];
  rate_collection_range = none;
  config = config;
}

abbrev pub SocketCache : Type 0
SocketCache = List (SocketAddr × Entry)

unfoldable pub lookup : SocketAddr → SocketCache → Option Entry
lookup k [] = none
lookup k ((j, v) ∷ m) = if addr_eq j k then some v else lookup k m

-- `entry(k).and_modify(f).or_insert_with(|| v)`.
unfoldable pub upsert : SocketAddr → (Entry → Entry) → Entry → SocketCache → SocketCache
upsert k f v [] = (k, v) ∷ []
upsert k f v ((j, w) ∷ m) = if addr_eq j k then (j, f w) ∷ m else (j, w) ∷ upsert k f v m

pub record SocketTableCollector : Type 0 where
  pub filter : Filter
  pub filter_interpretor : Option Interpretor
  pub socket_cache : SocketCache
  pub oldest_segment_ts : Option Timestamp
  pub oldest_rate_segment_ts : Option Timestamp
  pub rate_until : Timestamp

unfoldable pub new_collector : Filter → Option Interpretor → Timestamp → SocketTableCollector
new_collector filter interpretor rate_until = record {
  filter = filter;
  filter_interpretor = interpretor;
  socket_cache = [];
  oldest_segment_ts = none;
  oldest_rate_segment_ts = none;
  rate_until = rate_until;
}

unfoldable pub into_dataset : SocketTableCollector → List Entry
into_dataset self = map (λ (e : SocketAddr × Entry). e.1) self.socket_cache

-- The two tests that a socket has to pass.
unfoldable pub passes : Filter → Option Interpretor → Socket → Bool
unfolding match_interest interest Interpretor.filter
passes filter interpretor socket =
    match_interest socket (interest filter)
    && unwrap_or (option_map (λ i. Interpretor.filter i socket) interpretor) true

-- What a segment adds to the entry of a socket that has one, and the entry of one that has none.
unfoldable pub add_to : Bool → Stat → Entry → Entry
unfolding merge
add_to eligible stat entry = record entry {
  stat = merge entry.stat stat;
  rate_stat = if eligible then merge entry.rate_stat stat else entry.rate_stat;
}

unfoldable pub new_entry : Bool → Stat → ℕ → Socket → Entry
new_entry eligible stat last_activity socket = record {
  socket = socket;
  stat = stat;
  last_activity = last_activity;
  rate_stat = if eligible then stat else default_stat;
  pid = socket.pid;
}

module _ (d : Dash) where
  -- The traffic of a socket in a segment.
  unfoldable pub socket_stat : TimeSegment d → Socket → Stat
  unfolding stat_by_interest
  socket_stat s socket =
      unwrap_or (stat_by_interest d s.segment (local_socket socket.local)) default_stat

  -- The closure that `collect` calls for each socket of a segment.
  unfoldable pub collect_socket :
      SocketTableCollector → Bool → TimeSegment d → ClockNano → SocketCache → Socket → SocketCache
  unfolding passes socket_stat add_to new_entry upsert wall_time
  collect_socket self eligible s clock cache socket =
      if passes self.filter self.filter_interpretor socket
      then upsert socket.local (add_to eligible (socket_stat s socket))
          (new_entry eligible (socket_stat s socket) (wall_time clock s.ts) socket) cache
      else cache

  -- `SocketTableCollector::collect`.
  unfoldable pub collect_segment :
      ClockNano → SocketTableCollector → TimeSegment d → SocketTableCollector
  unfolding collect_socket for_each_socket
  collect_segment clock self s =
      let eligible = leb self.rate_until s.ts in
      record self {
        oldest_segment_ts = some s.ts;
        oldest_rate_segment_ts = if eligible then some s.ts else self.oldest_rate_segment_ts;
        socket_cache =
            for_each_socket d s.segment (collect_socket self eligible s clock) self.socket_cache;
      }

  unfoldable pub collect_segments :
      ClockNano → SocketTableCollector → List (TimeSegment d) → SocketTableCollector
  unfolding collect_segment
  collect_segments clock self [] = self
  collect_segments clock self (s ∷ rest) =
      collect_segments clock (collect_segment clock self s) rest

  -- The segments that a table shows, newest first.
  unfoldable pub recent :
      SocketTableConfig → Timestamp → List (TimeSegment d) → List (TimeSegment d)
  unfolding saturating_elapsed_since
  recent config ts segments =
      take_while (λ s. leb (saturating_elapsed_since s.ts ts) config.collection_window)
        (reverse segments)

  -- The table after the collection; `trunc` is the only step that can panic.
  collected : SocketTable → Timestamp → SocketTableCollector → SocketTable
  unfolding into_dataset
  collected self ts collector = record self {
    rate_collection_range = some (unwrap_or collector.oldest_rate_segment_ts ts, ts);
    dataset = into_dataset collector;
  }

  -- The start of the window for which rates are shown.
  unfoldable pub rate_start : SocketTable → Timestamp → ℕ → Option Timestamp
  unfolding trunc
  rate_start self ts window = trunc (max (ts - self.config.rate_window) window) window

  -- The collection once both timestamps are known.
  unfoldable pub collect_from :
      SocketTable → Timestamp → ClockNano → Store d → Option Interpretor → Timestamp → SocketTable
  unfolding new_collector collect_segments recent collected
  collect_from self ts clock store interpretor rate_until = collected self ts (
      collect_segments clock (new_collector self.filter interpretor rate_until)
        (recent self.config ts store.segments))

  -- `SocketTable::collect`.
  unfoldable pub collect :
      SocketTable → Timestamp → ClockNano → Store d → Option Interpretor → Option SocketTable
  unfolding trunc rate_start collect_from
  collect self ts clock store interpretor =
      and_then (trunc ts store.window) λ t.
        option_map (collect_from self t clock store interpretor) (rate_start self t store.window)
