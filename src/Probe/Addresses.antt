-- ===== src/Probe/Addresses.antt =====
-- ptraf-ebpf/src/ptraf-ebpf.rs and ptraf-common/src/types.rs: the addresses that the user side reads
-- in an event that the kernel side has sent.
use ptraf.Shared.{ℕ, ◌+◌, ◌*◌, ◌/◌, ◌%◌, ◌<◌, ◌≡◌, refl, ap, ◌∙◌, some, arith}
use ptraf.Shared.Int.{ℤ}
use ptraf.Shared.Results.{ok}
use ptraf.Std.Bytes.{Endian, little, swap16, from_be16, from_be32}
use ptraf.Std.Ip.{IpAddr, SocketAddr}
use ptraf.Std.Ip
use ptraf.Common.Types.{
  Channel, Words, BpfIpAddr, ip_v4, ip_v6, from_be_words, segments, SockMsgEvent, local_sock_addr,
  remote_sock_addr, std_ip,
}
use ptraf.Common.Address.{IsWords, std_ip-ip_v4, std_ip-ip_v6}
use ptraf.Probe.{
  SockCommon, Kernel, Context, CacheMap, af_inet, af_inet6, addresses, event_of, notification,
}

-- The kernel keeps the two addresses of a socket in network byte order, for either family.
pub data HasAddresses (e : Endian) (c : SockCommon) : IpAddr → IpAddr → Type 0 where
  inet :
      (a b : ℕ)
      → c.skc_family ≡ af_inet
      → a < 4294967296
      → b < 4294967296
      → c.skc_rcv_saddr ≡ from_be32 e a
      → c.skc_daddr ≡ from_be32 e b
      → HasAddresses e c (Ip.v4 a) (Ip.v4 b)
  inet6 :
      (w v : Words)
      → c.skc_family ≡ af_inet6
      → IsWords w
      → IsWords v
      → c.skc_v6_rcv_saddr ≡ from_be_words e w
      → c.skc_v6_daddr ≡ from_be_words e v
      → HasAddresses e c (Ip.v6 (segments w)) (Ip.v6 (segments v))

-- The two addresses that a probe sends, as the user side reads them.
Reads : Endian → SockCommon → IpAddr → IpAddr → Type 0
Reads e c l r =
    (addrs : BpfIpAddr × BpfIpAddr) × (addresses c ≡ some addrs)
    × (std_ip e addrs.0 ≡ l)
    × (std_ip e addrs.1 ≡ r)

addresses-Reads :
    (e : Endian) (c : SockCommon) (l r : IpAddr) → HasAddresses e c l r → Reads e c l r
unfolding Reads addresses
addresses-Reads e c l r (inet a b f ha hb p q) = (
  (ip_v4 c.skc_rcv_saddr, ip_v4 c.skc_daddr),
  rw f refl,
  ap (λ x. std_ip e (ip_v4 x)) p ∙ std_ip-ip_v4 e a ha,
  ap (λ x. std_ip e (ip_v4 x)) q ∙ std_ip-ip_v4 e b hb,
)
addresses-Reads e c l r (inet6 w v f hw hv p q) = (
  (ip_v6 c.skc_v6_rcv_saddr, ip_v6 c.skc_v6_daddr),
  rw f refl,
  ap (λ x. std_ip e (ip_v6 x)) p ∙ std_ip-ip_v6 e w hw,
  ap (λ x. std_ip e (ip_v6 x)) q ∙ std_ip-ip_v6 e v hv,
)

high_half :
    (num port pair : ℕ)
    → num < 65536
    → port < 65536
    → pair ≡ num * 65536 + swap16 port
    → pair / 65536 % 65536 ≡ num
unfolding swap16
high_half num port pair h k e = omega arith

low_half :
    (num port pair : ℕ)
    → num < 65536
    → port < 65536
    → pair ≡ num * 65536 + swap16 port
    → swap16 (pair % 65536) ≡ port
unfolding swap16
low_half num port pair h k e = omega arith

-- For a socket that the kernel can read, of either internet family, on a little-endian host, where
-- the pair of its ports holds the port of the host above the remote port in network byte order: the
-- probe sends an event, and the user side reads in it the addresses of the socket, its remote
-- port, and its local port with the two bytes swapped.
pub notification-sock_addr :
    (m : CacheMap) (kernel : Kernel) (ctx : Context) (sk sk_type : ℕ) (c : SockCommon) (ret : ℤ)
    (channel : Channel) (l r : IpAddr) (num port : ℕ)
    → kernel.read_common sk ≡ ok c
    → kernel.read_type sk ≡ ok sk_type
    → HasAddresses little c l r
    → num < 65536
    → port < 65536
    → c.skc_portpair ≡ num * 65536 + from_be16 little port
    → (ev : SockMsgEvent) × (notification m kernel ctx sk ret channel ≡ ok (some ev))
      × (remote_sock_addr little ev ≡ record { ip = r; port = port })
      × (local_sock_addr little ev ≡ record { ip = l; port = swap16 num })
      × (ev.pid ≡ ctx.pid)
      × (ev.ret ≡ ret)
unfolding notification event_of remote_sock_addr local_sock_addr Reads from_be16
notification-sock_addr m kernel ctx sk sk_type c ret channel l r num port h k a hn hp pair =
    let (addrs, is, from, to) = addresses-Reads little c l r a in
    let high : c.skc_portpair / 65536 % 65536 ≡ num =
      high_half num port c.skc_portpair hn hp pair in
    let low : swap16 (c.skc_portpair % 65536) ≡ port =
      low_half num port c.skc_portpair hn hp pair in
    (
      event_of ctx c sk_type ret channel addrs,
      rw (h, k, is) refl,
      λ i. record { ip = to i; port = low i },
      λ i. record { ip = from i; port = swap16 (high i) },
      refl,
      refl,
    )
