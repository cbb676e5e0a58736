-- ===== src/Store/Segment.antt =====
-- ptraf/src/store.rs: a segment counts the messages of one window, by interest, and keeps the
-- sockets that it saw.
pub mod Tally
pub mod Counts
pub mod Sockets
pub mod Threads
use mathlib.Core.List.{foldl}
use ptraf.Shared.{ℕ, ◌≡◌, Bool, Option, none, some, List, [], ◌∷◌, ◌++◌, option_map, unwrap_or}
use ptraf.Shared.Results.{Result, ok, err}
use ptraf.Std.Bytes.{Endian}
use ptraf.Common.Types.{SockMsgEvent, Channel, tx, rx, packet_size}
use ptraf.Store.Traffic.{Metrics, Stat, default_metrics, increment_channel, stat_of, total, add_u64}
use ptraf.Store.Socket.{Interest, Socket, interests_from_msg, socket_of, all}
use ptraf.Store.Dash.{Dash}

pub record Segment (d : Dash) : Type 0 where
  pub index : d.Index
  pub socks : d.Socks

module _ (d : Dash) where
  abbrev pub default_segment : Segment d
  default_segment = record { index = d.default_index; socks = d.default_socks }

  -- The body of the loop over the interests of a message.
  unfoldable pub count : Channel → ℕ → d.Index → Interest → d.Index
  count channel len index interest =
      d.upsert index interest (increment_channel channel len 1)
        (increment_channel channel len 1 default_metrics)

  unfoldable pub count_all : Channel → ℕ → d.Index → List Interest → d.Index
  unfolding count
  count_all channel len index [] = index
  count_all channel len index (i ∷ is) = count_all channel len (count channel len index i) is

  module _ (e : Endian) where
    -- The body of the loop over the messages: one that carries an error is left out.
    unfoldable pub update : Segment d → SockMsgEvent → Segment d
    unfolding count_all interests_from_msg socket_of packet_size
    update s msg = elim (packet_size msg) [
      | ok len ↦ record {
        index = count_all msg.channel len s.index (interests_from_msg e msg);
        socks = d.insert s.socks (socket_of e msg);
      }
      | err _ ↦ s
    ]

    unfoldable pub batch_update : Segment d → List SockMsgEvent → Segment d
    unfolding update
    batch_update s [] = s
    batch_update s (msg ∷ msgs) = batch_update (update s msg) msgs

  unfoldable pub stat_by_interest : Segment d → Interest → Option Stat
  unfolding stat_of
  stat_by_interest s interest = option_map stat_of (d.get s.index interest)

  -- The calls of `f`, in the order of the iteration.
  unfoldable pub for_each_socket {ℓ} : {A : Type ℓ} → Segment d → (A → Socket → A) → A → A
  for_each_socket s f a = foldl f a (d.iter s.socks)

  abbrev channel_total : Option Channel → Stat → ℕ
  channel_total (some tx) s = s.tx
  channel_total (some rx) s = s.rx
  channel_total none s = add_u64 s.tx s.rx

  unfoldable pub segment_total : Segment d → Option Channel → ℕ
  unfolding stat_by_interest
  segment_total s channel =
      unwrap_or (option_map (channel_total channel) (stat_by_interest s all)) 0

  unfoldable pub total_packet_count : Segment d → ℕ
  unfolding stat_by_interest
  total_packet_count s =
      unwrap_or
        (option_map (λ stat. add_u64 stat.rx_packet_count stat.tx_packet_count)
          (stat_by_interest s all))
        0
