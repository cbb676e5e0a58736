-- ===== src/Start.antt =====
-- ptraf/src/main.rs: the options and the store that the program starts with. Parsing the command
-- line and the tasks are left to their libraries.
pub mod Capacity
pub mod Examples
use ptraf.Shared.{ℕ, ◌*◌, ◌/◌, ◌%◌, max}
use ptraf.Clock.{u64_mod}
use ptraf.Store.Dash.{Dash}
use ptraf.Store.Series.{Store}
use ptraf.Store.Series

-- The options of the program.
pub record Args : Type 0 where
  pub backlog_secs : ℕ
  pub msg_buffer_capacity : ℕ
  pub ui_refresh_rate_ms : ℕ
  pub interval_ms : ℕ

unfoldable pub default_args : Args
default_args = record {
  backlog_secs = 30;
  msg_buffer_capacity = 4096;
  ui_refresh_rate_ms = 500;
  interval_ms = 250;
}

-- `Duration::from_millis`, in nanoseconds.
unfoldable pub segment_interval : Args → ℕ
segment_interval args = max args.interval_ms 10 * 1000000

-- The product wraps as in a release build; the cast to `usize` is of 64 bits.
unfoldable pub segment_count : Args → ℕ
segment_count args = max (args.backlog_secs * 1000 % u64_mod / max args.interval_ms 10) 1

module _ (d : Dash) where
  unfoldable pub initial_store : Args → Store d
  unfolding segment_interval segment_count Series.new
  initial_store args = Series.new d (segment_interval args) (segment_count args)
