-- ===== src/Store/Socket.antt =====
-- ptraf/src/store.rs: sockets, and the interests under which traffic is counted.
use ptraf.Shared.{
  ℕ, ◌≡◌, ◌↔◌, Bool, true, false, Option, none, some, List, [], ◌∷◌, ◌==◌, if◌then◌else◌, arith,
}
use ptraf.Std.Bytes.{Endian}
use ptraf.Std.Ip.{IpAddr, SocketAddr, ip_eq, addr_eq, is_ipv4, ip_eq_iff, addr_eq_iff}
use ptraf.Common.Types.{
  SockMsgEvent, SockType, stream, dgram, local_sock_addr, remote_sock_addr, std_ip,
}
use ptraf.Filter.Expr.{Filterable, Protocol, tcp, udp, ipv4, ipv6}

pub data Interest : Type 0 where
  remote_ip : IpAddr → Interest
  remote_socket : SocketAddr → Interest
  local_socket : SocketAddr → Interest
  pid : ℕ → Interest
  all : Interest

abbrev pub interest_eq : Interest → Interest → Bool
interest_eq (remote_ip a) (remote_ip b) = ip_eq a b
interest_eq (remote_socket a) (remote_socket b) = addr_eq a b
interest_eq (local_socket a) (local_socket b) = addr_eq a b
interest_eq (pid a) (pid b) = a == b
interest_eq all all = true
interest_eq _ _ = false

unfoldable pub interests_from_msg : Endian → SockMsgEvent → List Interest
unfolding local_sock_addr remote_sock_addr std_ip
interests_from_msg e msg =
    pid msg.pid
    ∷ local_socket (local_sock_addr e msg)
    ∷ remote_socket (remote_sock_addr e msg)
    ∷ remote_ip (std_ip e msg.remote_addr)
    ∷ all
    ∷ []

pub record Socket : Type 0 where
  pub pid : ℕ
  pub local : SocketAddr
  pub remote : SocketAddr
  pub sock_type : SockType

-- The arm of `LocalSocket` compares with the remote address, as the source does.
unfoldable pub match_interest : Socket → Interest → Bool
match_interest s (remote_ip ip) = ip_eq ip s.remote.ip
match_interest s (remote_socket sock) = addr_eq sock s.remote
match_interest s (local_socket sock) = addr_eq sock s.remote
match_interest s (pid n) = n == s.pid
match_interest s all = true

-- `From<&SockMsgEvent> for Socket`.
unfoldable pub socket_of : Endian → SockMsgEvent → Socket
unfolding local_sock_addr remote_sock_addr
socket_of e msg = record {
  pid = msg.pid;
  local = local_sock_addr e msg;
  remote = remote_sock_addr e msg;
  sock_type = msg.sock_type;
}

-- Sockets are compared, and hashed, by their local address alone.
abbrev pub socket_eq : Socket → Socket → Bool
socket_eq a b = addr_eq a.local b.local

abbrev pub protocol_of : SockType → Option Protocol
protocol_of stream = some tcp
protocol_of dgram = some udp
protocol_of _ = none

instance abbrev pub socket_filterable : Filterable Socket
socket_filterable = record {
  pid = λ s. s.pid;
  protocol = λ s. protocol_of s.sock_type;
  ip_version = λ s. if is_ipv4 s.local.ip then ipv4 else ipv6;
  local_address = λ s. s.local.ip;
  remote_address = λ s. s.remote.ip;
  local_port = λ s. s.local.port;
  remote_port = λ s. s.remote.port;
}

pub interest_eq_iff : (i j : Interest) → (interest_eq i j ≡ true) ↔ (i ≡ j)
interest_eq_iff (remote_ip a) (remote_ip b) = ground (arith, ip_eq_iff a b)
interest_eq_iff (remote_socket a) (remote_socket b) = ground (arith, addr_eq_iff a b)
interest_eq_iff (local_socket a) (local_socket b) = ground (arith, addr_eq_iff a b)
interest_eq_iff i j = ground arith
