-- ===== src/Common/Types.antt =====
-- ptraf-common/src/types.rs: the event that the kernel side sends to the user side, and its parts.
-- A packed struct is a record; `c_int` is `ℤ`; the unsigned types are numbers.
use ptraf.Shared.{ℕ, ◌+◌, ◌*◌, ◌/◌, ◌%◌, ◌^◌, String, ◌==◌, if◌then◌else◌}
use ptraf.Shared.Int.{ℤ, pos, negsuc, neg_i32}
use ptraf.Shared.Results.{Result, ok, err}
use ptraf.Std.Bytes.{Endian, from_be16, from_be32}
use ptraf.Std.Ip.{SocketAddr}
use ptraf.Std.Ip

pub data Channel : Type 0 where
  tx rx : Channel

unfoldable pub display : Channel → String
display tx = "TX"
display rx = "RX"

pub data IpVersion : Type 0 where
  v4 v6 : IpVersion

-- `[u16; 8]`.
pub record Words : Type 0 where
  pub w0 : ℕ
  pub w1 : ℕ
  pub w2 : ℕ
  pub w3 : ℕ
  pub w4 : ℕ
  pub w5 : ℕ
  pub w6 : ℕ
  pub w7 : ℕ

-- The address as the BPF program writes it.
pub record BpfIpAddr : Type 0 where
  pub addr : Words
  pub version : IpVersion

-- A shift right by 16 and the casts to `u16`.
unfoldable pub ip_v4 : ℕ → BpfIpAddr
ip_v4 addr = record {
  addr = record {
    w0 = 0;
    w1 = 0;
    w2 = 0;
    w3 = 0;
    w4 = 0;
    w5 = 0;
    w6 = addr / 65536 % 65536;
    w7 = addr % 65536;
  };
  version = v4;
}

unfoldable pub ip_v6 : Words → BpfIpAddr
ip_v6 addr = record { addr = addr; version = v6 }

unfoldable pub from_words : Words → BpfIpAddr
unfolding ip_v6
from_words value = ip_v6 value

-- The shifted bytes do not overlap, so `|` is `+`.
unfoldable pub from_octets : ℕ → ℕ → ℕ → ℕ → BpfIpAddr
unfolding ip_v4
from_octets a b c d = ip_v4 (a * 16777216 + b * 65536 + c * 256 + d)

-- The eight segments of `Ipv6Addr::new`, most significant first.
abbrev pub segments : Words → ℕ
segments w =
    w.w0 * 2 ^ 112
    + w.w1 * 2 ^ 96
    + w.w2 * 2 ^ 80
    + w.w3 * 2 ^ 64
    + w.w4 * 2 ^ 48
    + w.w5 * 2 ^ 32
    + w.w6 * 2 ^ 16
    + w.w7

unfoldable pub from_be_words : Endian → Words → Words
unfolding from_be16
from_be_words e w = record {
  w0 = from_be16 e w.w0;
  w1 = from_be16 e w.w1;
  w2 = from_be16 e w.w2;
  w3 = from_be16 e w.w3;
  w4 = from_be16 e w.w4;
  w5 = from_be16 e w.w5;
  w6 = from_be16 e w.w6;
  w7 = from_be16 e w.w7;
}

std_ip_of : Endian → IpVersion → Words → Ip.IpAddr
std_ip_of e v4 w = Ip.v4 (from_be32 e (w.w6 * 65536 + w.w7))
std_ip_of e v6 w = Ip.v6 (segments (from_be_words e w))

-- `From<IpAddr> for std::net::IpAddr`.
unfoldable pub std_ip : Endian → BpfIpAddr → Ip.IpAddr
unfolding std_ip_of from_be32 from_be_words
std_ip e ip = std_ip_of e ip.version ip.addr

pub data SockType : Type 0 where
  unknown stream dgram raw rdm seqpacket dccp packet : SockType

unfoldable pub from_u16 : ℕ → SockType
from_u16 val =
    if val == 1
    then stream
    else if val == 2
    then dgram
    else if val == 3
    then raw
    else if val == 4
    then rdm
    else if val == 5
    then seqpacket
    else if val == 6
    then dccp
    else if val == 10
    then packet
    else unknown

-- The `repr(u16)` discriminants.
unfoldable pub discriminant : SockType → ℕ
discriminant unknown = 0
discriminant stream = 1
discriminant dgram = 2
discriminant raw = 3
discriminant rdm = 4
discriminant seqpacket = 5
discriminant dccp = 6
discriminant packet = 10

unfoldable pub to_string : SockType → String
to_string unknown = "Unknown"
to_string stream = "Stream"
to_string dgram = "Datagram"
to_string raw = "Raw"
to_string rdm = "RDM"
to_string seqpacket = "Seqpacket"
to_string dccp = "DCCP"
to_string packet = "Packet"

pub record SockMsgEvent : Type 0 where
  pub sock_type : SockType
  pub local_addr : BpfIpAddr
  pub remote_addr : BpfIpAddr
  pub local_port : ℕ
  pub remote_port : ℕ
  pub ret : ℤ
  pub pid : ℕ
  pub channel : Channel

abbrev pub size_of_ret : ℤ → Result ℕ ℤ
size_of_ret (pos n) = ok n
size_of_ret (negsuc n) = err (neg_i32 (negsuc n))

-- `ret >= 0` holds of a `pos`, whose cast to `u32` is the number itself.
unfoldable pub packet_size : SockMsgEvent → Result ℕ ℤ
unfolding neg_i32
packet_size m = size_of_ret m.ret

unfoldable pub local_sock_addr : Endian → SockMsgEvent → SocketAddr
unfolding std_ip from_be16
local_sock_addr e m = record { ip = std_ip e m.local_addr; port = from_be16 e m.local_port }

unfoldable pub remote_sock_addr : Endian → SockMsgEvent → SocketAddr
unfolding std_ip from_be16
remote_sock_addr e m = record { ip = std_ip e m.remote_addr; port = from_be16 e m.remote_port }
