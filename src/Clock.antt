-- ===== src/Clock.antt =====
-- ptraf/src/clock.rs: timestamps and the clock. A `Duration` is its number of nanoseconds; the
-- operations of the standard library that panic return `none`.
pub mod Trunc
pub mod Examples
use ptraf.Shared.{
  ℕ, ◌+◌, ◌-◌, ◌*◌, ◌%◌, ◌^◌, Option, none, some, ltb, ◌==◌, if◌then◌else◌, unwrap_or,
}

abbrev pub u64_mod : ℕ
u64_mod = 18446744073709551616

-- The number of nanoseconds above which a `Duration` does not go.
abbrev pub duration_limit : ℕ
duration_limit = 18446744073709551616000000000

-- `Timestamp(pub Duration)`.
abbrev pub Timestamp : Type 0
Timestamp = ℕ

-- `other.0.saturating_sub(self.0)`.
unfoldable pub saturating_elapsed_since : Timestamp → Timestamp → ℕ
saturating_elapsed_since self other = other - self

-- Both counts of nanoseconds are cast to `u64`; a remainder by 0 panics.
unfoldable pub trunc : Timestamp → ℕ → Option Timestamp
trunc self window =
    let nanos = self % u64_mod in
    let divisor = window % u64_mod in if divisor == 0 then none else some (nanos - nanos % divisor)

-- `Duration + Duration` panics on overflow.
unfoldable pub add : Timestamp → ℕ → Option Timestamp
add self rhs = if ltb (self + rhs) duration_limit then some (self + rhs) else none

-- A `SystemTime` is its number of nanoseconds since the epoch, whose seconds are an `i64`.
abbrev pub system_time_limit : ℕ
system_time_limit = 9223372036854775808000000000

pub record ClockNano : Type 0 where
  pub start : ℕ
  pub wall_time : ℕ

checked_add : ℕ → ℕ → Option ℕ
checked_add t d = if ltb (t + d) system_time_limit then some (t + d) else none

-- The wall time of a timestamp, or that of the start where there is none.
unfoldable pub wall_time : ClockNano → Timestamp → ℕ
unfolding checked_add
wall_time c ts = unwrap_or (checked_add c.wall_time ts) c.wall_time

-- `Instant::elapsed`, at the instant `instant`.
unfoldable pub now : ClockNano → ℕ → Timestamp
now c instant = instant - c.start
