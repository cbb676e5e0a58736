-- ===== src/Store/Examples.antt =====
-- The theorems on the store, on concrete messages.
use mathlib.Core.List.{Nodup, Mem, Nodup-nil}
use ptraf.Shared.{◌≡◌, ◌↔◌, subst, unwrap_or, Option, some, List, [], ◌∷◌, back, arith}
use ptraf.Shared.Int.{pos, negsuc}
use ptraf.Shared.Results.{done}
use ptraf.Std.Bytes.{little}
use ptraf.Common.Types.{SockMsgEvent, Channel, tx, rx, ip_v4, stream, local_sock_addr}
use ptraf.Store.Traffic.{merge}
use ptraf.Store.Socket.{all}
use ptraf.Store.Dash.{simple_dash}
use ptraf.Store.Segment.{Segment, default_segment, stat_by_interest}
use ptraf.Store.Segment
use ptraf.Store.Segment.Tally.{IsStat, tally}
use ptraf.Store.Segment.Counts.{stat_at}
use ptraf.Store.Segment.Sockets.{batch_update-Nodup, mem-batch_update, known, seen}
use ptraf.Store.Segment.Threads.{
  Op, ops_of, Interleaving, nil, left, right, run, stat_at-Interleaving,
}
use ptraf.Store.Series.{Store, TimeSegment, batch_update, write_segment}
use ptraf.Store.Series.Invariant.{IsStore}
use ptraf.Store.Series.Operations.{advanced, window_of, write_segment-advanced}
use mathlib.Core.Logic.{◌∨₁◌}
use ptraf.Store.Series.Newest.{latest, batch_update_counts}

-- A message of 100 bytes received, one of 40 bytes sent, and one that failed.
abbrev pub received : SockMsgEvent
received = record {
  sock_type = stream;
  local_addr = record {
    addr = record { w0 = 0; w1 = 0; w2 = 0; w3 = 0; w4 = 0; w5 = 0; w6 = 1; w7 = 127 };
    version = ptraf.Common.Types.v4;
  };
  remote_addr = record {
    addr = record { w0 = 0; w1 = 0; w2 = 0; w3 = 0; w4 = 0; w5 = 0; w6 = 2; w7 = 10 };
    version = ptraf.Common.Types.v4;
  };
  local_port = 80;
  remote_port = 443;
  ret = pos 100;
  pid = 7;
  channel = rx;
}

abbrev pub sent : SockMsgEvent
sent = record received { ret = pos 40; channel = tx; local_port = 81 }

abbrev failed : SockMsgEvent
failed = record received { ret = negsuc 10 }

abbrev start : Segment simple_dash
start = default_segment simple_dash

start-IsStat : IsStat (stat_at simple_dash start all)
unfolding stat_by_interest
start-IsStat = record {
  rx_fits = omega arith;
  rx_count_fits = omega arith;
  tx_fits = omega arith;
  tx_count_fits = omega arith;
}

-- The steps of the two tasks in turn.
abbrev in_turn : List Op → List Op → List Op
in_turn [] ys = ys
in_turn (x ∷ xs) [] = x ∷ xs
in_turn (x ∷ xs) (y ∷ ys) = x ∷ y ∷ in_turn xs ys

all_right : (ys : List Op) → Interleaving [] ys ys
all_right [] = nil
all_right (y ∷ ys) = right (all_right ys)

all_left : (xs : List Op) → Interleaving xs [] xs
all_left [] = nil
all_left (x ∷ xs) = left (all_left xs)

in_turn-Interleaving : (xs ys : List Op) → Interleaving xs ys (in_turn xs ys)
in_turn-Interleaving [] ys = all_right ys
in_turn-Interleaving (x ∷ xs) [] = all_left (x ∷ xs)
in_turn-Interleaving (x ∷ xs) (y ∷ ys) = left (right (in_turn-Interleaving xs ys))

abbrev interleaved : List Op
interleaved = in_turn (ops_of little (received ∷ [])) (ops_of little (sent ∷ []))

stat_at-Interleaving_example :
    stat_at simple_dash (run simple_dash start interleaved) all
    ≡ stat_at simple_dash
        (Segment.batch_update simple_dash little
          (Segment.batch_update simple_dash little start (received ∷ []))
          (sent ∷ []))
        all
stat_at-Interleaving_example =
    stat_at-Interleaving simple_dash little start (received ∷ []) (sent ∷ []) interleaved all
      (in_turn-Interleaving (ops_of little (received ∷ [])) (ops_of little (sent ∷ [])))
      start-IsStat

batch_update-Nodup_example : Nodup (
    known simple_dash little
      (Segment.batch_update simple_dash little start (received ∷ received ∷ sent ∷ [])))
batch_update-Nodup_example =
    batch_update-Nodup simple_dash little start (received ∷ received ∷ sent ∷ []) Nodup-nil

mem-batch_update_example :
    Mem (local_sock_addr little sent) (
      known simple_dash little
        (Segment.batch_update simple_dash little start (received ∷ sent ∷ [])))
    ↔ (Mem (local_sock_addr little sent) (known simple_dash little start)
        ∨₁ Mem (local_sock_addr little sent) (seen simple_dash little (received ∷ sent ∷ [])))
mem-batch_update_example =
    mem-batch_update simple_dash little start (received ∷ sent ∷ []) (local_sock_addr little sent)

abbrev pub store : Store simple_dash
store = record { window = 250; capacity = 4; segments = [] }

pub store-IsStore : IsStore store
store-IsStore = record {
  window_pos = omega arith;
  window_fits = omega arith;
  bounded = omega arith;
  in_windows = tt;
}

-- The first segment of the store.
abbrev pub first : TimeSegment simple_dash
first = record { ts = 1000; segment = start }

first-IsStat :
    (x : TimeSegment simple_dash)
    → back (advanced simple_dash store 1100).segments ≡ some x
    → IsStat (stat_at simple_dash x.segment all)
first-IsStat x h =
    subst
      (λ (o : Option (TimeSegment simple_dash)).
        IsStat (stat_at simple_dash (unwrap_or o first).segment all))
      h start-IsStat

batch_update_counts_example :
    (t : Store simple_dash) × (x : TimeSegment simple_dash) × (y : TimeSegment simple_dash)
    × (batch_update simple_dash little store 1100 (received ∷ sent ∷ []) ≡ done t)
    × (back (advanced simple_dash store 1100).segments ≡ some x)
    × (back t.segments ≡ some y)
    × (y.ts ≡ latest simple_dash (window_of simple_dash store 1100) (back store.segments))
    × (stat_at simple_dash y.segment all
        ≡ merge (stat_at simple_dash x.segment all) (tally little all (received ∷ sent ∷ [])))
batch_update_counts_example =
    batch_update_counts simple_dash little store 1100 (received ∷ sent ∷ []) all store-IsStore
      (omega arith) first-IsStat

write_segment-advanced_example :
    write_segment simple_dash store 1100 ≡ done (advanced simple_dash store 1100)
write_segment-advanced_example =
    write_segment-advanced simple_dash store 1100 store-IsStore (omega arith)
