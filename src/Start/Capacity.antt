-- ===== src/Start/Capacity.antt =====
-- ptraf/src/main.rs: the capacity of the store that the program starts with.
use native.Mathlib.Nat.{le_trans, mul-le-mul_left, mul-div-le, div-le_self}
use ptraf.Shared.{ℕ, ◌+◌, ◌-◌, ◌*◌, ◌/◌, ◌%◌, ◌≤◌, ◌<◌, max, ◌≡◌, List, length, All, arith}
use ptraf.Shared.Results.{done}
use ptraf.Std.Bytes.{Endian}
use ptraf.Clock.{u64_mod, duration_limit, Timestamp}
use ptraf.Common.Types.{SockMsgEvent}
use ptraf.Store.Dash.{Dash}
use ptraf.Store.Series.{Store}
use ptraf.Store.Series.Invariant.{IsStore}
use ptraf.Store.Series.Operations.{store_all, store_all-new}
use ptraf.Start.{Args, segment_interval, segment_count, initial_store}

pub interval_pos : (args : Args) → 0 < segment_interval args
unfolding segment_interval
interval_pos args = omega arith

pub count_pos : (args : Args) → 1 ≤ segment_count args
unfolding segment_count
count_pos args = omega arith

-- With an interval whose nanoseconds fit 64 bits, the store of the program takes any history of
-- batches whose timestamps fit 64 bits without a panic, and holds at most `segment_count` segments
-- then, in consecutive windows.
pub store_all-initial_store :
    (d : Dash) (e : Endian) (args : Args) (bs : List (Timestamp × List SockMsgEvent))
    → segment_interval args < u64_mod
    → All (λ b. b.0 < u64_mod) bs
    → (t : Store d) × (store_all d e (initial_store d args) bs ≡ done t)
      × IsStore t
      × (length t.segments ≤ segment_count args)
unfolding initial_store
store_all-initial_store d e args bs h hb =
    let r =
      store_all-new d e (segment_interval args) (segment_count args) bs (interval_pos args) h hb in
    let one = count_pos args in
    let bound : length r.0.segments ≤ max (segment_count args) 1 = r.3 in
    (r.0, r.1, r.2, omega arith)

scaled : (m k : ℕ) → m * 1000000 * k ≡ 1000000 * (m * k)
scaled m k = grind arith

span_bound : (m k p : ℕ) → k ≤ p / m → p < u64_mod → m * 1000000 * k < duration_limit
span_bound m k p h small =
    let a = le_trans (mul-le-mul_left m h) (mul-div-le p m) in let b = scaled m k in omega arith

-- The time that the store of the program can hold is a `Duration`.
pub span_fits :
    (args : Args)
    → segment_interval args * ((segment_count args + (u64_mod - 1)) % u64_mod) < duration_limit
unfolding segment_interval segment_count
span_fits args =
    let m = max args.interval_ms 10 in
    let p = args.backlog_secs * 1000 % u64_mod in
    let q = div-le_self p m in
    span_bound m ((max (p / m) 1 + (u64_mod - 1)) % u64_mod) p (omega arith) (omega arith)
