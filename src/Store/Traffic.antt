-- ===== src/Store/Traffic.antt =====
-- ptraf/src/store.rs: the counters of a segment and the statistics read from them. An `AtomicU64`
-- is its value; `fetch_add` and, in a release build, `+` on `u64` wrap.
use ptraf.Shared.{ℕ, ◌+◌, ◌%◌}
use ptraf.Clock.{u64_mod}
use ptraf.Common.Types.{Channel, tx, rx}

unfoldable pub add_u64 : ℕ → ℕ → ℕ
add_u64 a b = (a + b) % u64_mod

pub record Traffic : Type 0 where
  pub size : ℕ
  pub count : ℕ

abbrev pub default_traffic : Traffic
default_traffic = record { size = 0; count = 0 }

unfoldable pub increment : Traffic → ℕ → ℕ → Traffic
unfolding add_u64
increment t val count = record { size = add_u64 t.size val; count = add_u64 t.count count }

pub record Stat : Type 0 where
  pub rx : ℕ
  pub rx_packet_count : ℕ
  pub tx : ℕ
  pub tx_packet_count : ℕ

abbrev pub default_stat : Stat
default_stat = record { rx = 0; rx_packet_count = 0; tx = 0; tx_packet_count = 0 }

unfoldable pub total : Stat → ℕ
unfolding add_u64
total s = add_u64 s.rx s.tx

-- `merge`, and both `+=` operators.
unfoldable pub merge : Stat → Stat → Stat
unfolding add_u64
merge self other = record {
  rx = add_u64 self.rx other.rx;
  rx_packet_count = add_u64 self.rx_packet_count other.rx_packet_count;
  tx = add_u64 self.tx other.tx;
  tx_packet_count = add_u64 self.tx_packet_count other.tx_packet_count;
}

pub record Metrics : Type 0 where
  pub rx : Traffic
  pub tx : Traffic

abbrev pub default_metrics : Metrics
default_metrics = record { rx = default_traffic; tx = default_traffic }

abbrev pub with_channel : Channel → (Traffic → Traffic) → Metrics → Metrics
with_channel rx f m = record { rx = f m.rx; tx = m.tx }
with_channel tx f m = record { rx = m.rx; tx = f m.tx }

-- `Metrics::increment`: `with_channel` picks the counters that `increment` changes in place.
unfoldable pub increment_channel : Channel → ℕ → ℕ → Metrics → Metrics
unfolding increment
increment_channel channel val count m = with_channel channel (λ t. increment t val count) m

unfoldable pub stat_of : Metrics → Stat
stat_of m = record {
  rx = m.rx.size;
  rx_packet_count = m.rx.count;
  tx = m.tx.size;
  tx_packet_count = m.tx.count;
}
