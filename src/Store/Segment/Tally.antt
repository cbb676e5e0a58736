-- ===== src/Store/Segment/Tally.antt =====
-- What a batch of messages adds to an interest, as an unbounded sum: the specification of the
-- counters of ptraf/src/store.rs.
use ptraf.Shared.{ℕ, ◌+◌, ◌<◌, ◌≡◌, sym, ap, ◌∙◌, Bool, true, false, ◌==◌, List, [], ◌∷◌, arith}
use ptraf.Shared.Int.{ℤ, pos, negsuc}
use ptraf.Std.Bytes.{Endian}
use ptraf.Std.Ip.{ip_eq, addr_eq}
use ptraf.Clock.{u64_mod}
use ptraf.Common.Types.{SockMsgEvent, Channel, tx, rx, local_sock_addr, remote_sock_addr, std_ip}
use ptraf.Store.Traffic.{Stat, default_stat, merge}
use ptraf.Store.Socket.{Interest, remote_ip, remote_socket, local_socket, pid, all}

-- Whether a message is traffic of an interest.
abbrev pub concerns : Endian → Interest → SockMsgEvent → Bool
concerns e (remote_ip ip) m = ip_eq (std_ip e m.remote_addr) ip
concerns e (remote_socket sock) m = addr_eq (remote_sock_addr e m) sock
concerns e (local_socket sock) m = addr_eq (local_sock_addr e m) sock
concerns e (pid n) m = m.pid == n
concerns e all m = true

-- One packet of `len` bytes on a channel.
abbrev pub one_packet : Channel → ℕ → Stat
one_packet rx len = record { rx = len; rx_packet_count = 1; tx = 0; tx_packet_count = 0 }
one_packet tx len = record { rx = 0; rx_packet_count = 0; tx = len; tx_packet_count = 1 }

-- The sum of two statistics, without bound.
abbrev pub plus : Stat → Stat → Stat
plus s t = record {
  rx = s.rx + t.rx;
  rx_packet_count = s.rx_packet_count + t.rx_packet_count;
  tx = s.tx + t.tx;
  tx_packet_count = s.tx_packet_count + t.tx_packet_count;
}

abbrev pub share_of : ℤ → Channel → Bool → Stat
share_of (pos len) channel true = one_packet channel len
share_of (pos len) channel false = default_stat
share_of (negsuc n) channel b = default_stat

-- What a message adds to an interest: nothing if it carries an error or is no traffic of it.
abbrev pub share : Endian → Interest → SockMsgEvent → Stat
share e i m = share_of m.ret m.channel (concerns e i m)

-- The unbounded sum over a batch.
abbrev pub tally : Endian → Interest → List SockMsgEvent → Stat
tally e i [] = default_stat
tally e i (m ∷ ms) = plus (share e i m) (tally e i ms)

-- Each counter fits 64 bits.
pub record IsStat (s : Stat) : Type 0 where
  pub rx_fits : s.rx < u64_mod
  pub rx_count_fits : s.rx_packet_count < u64_mod
  pub tx_fits : s.tx < u64_mod
  pub tx_count_fits : s.tx_packet_count < u64_mod

pub merge-IsStat : (s t : Stat) → IsStat (merge s t)
unfolding merge
merge-IsStat s t = omega arith

pub merge-default_stat : (s : Stat) → IsStat s → merge s default_stat ≡ s
unfolding merge
merge-default_stat s h = ground arith

pub merge-merge : (s t u : Stat) → merge (merge s t) u ≡ merge s (plus t u)
unfolding merge
merge-merge s t u = ground arith

-- Each counter modulo 2 ^ 64.
abbrev pub wrapped : Stat → Stat
wrapped s = merge default_stat s

pub merge-wrapped : (s t : Stat) → merge (wrapped s) t ≡ merge s t
unfolding merge
merge-wrapped s t = ground arith

pub wrapped-merge : (s t : Stat) → wrapped (merge s t) ≡ merge s t
unfolding merge
wrapped-merge s t = ground arith

pub wrapped-plus : (s t : Stat) → wrapped (plus s t) ≡ merge s t
unfolding merge
wrapped-plus s t = ground arith

-- Sums of counters that are equal modulo 2 ^ 64.
pub wrapped-cong : (a b c : Stat) → wrapped a ≡ wrapped b → wrapped (plus a c) ≡ wrapped (plus b c)
wrapped-cong a b c h =
    wrapped-plus a c
    ∙ sym (merge-wrapped a c)
    ∙ ap (λ s. merge s c) h
    ∙ merge-wrapped b c
    ∙ sym (wrapped-plus b c)
