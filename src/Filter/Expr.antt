-- ===== src/Filter/Expr.antt =====
-- ptraf-filter/src/frontend.rs, the expressions, and the trait of ptraf-filter/src/lib.rs.
use ptraf.Shared.{ℕ, Bool, true, false, Option}
use ptraf.Std.Ip.{IpAddr}

pub data Protocol : Type 0 where
  tcp udp : Protocol

pub data IpVersion : Type 0 where
  ipv4 ipv6 : IpVersion

pub data Expr : Type 0 where
  pid : ℕ → Expr
  protocol : Protocol → Expr
  ip_version : IpVersion → Expr
  addr : IpAddr → Expr
  local_addr : IpAddr → Expr
  remote_addr : IpAddr → Expr
  port : ℕ → Expr
  local_port : ℕ → Expr
  remote_port : ℕ → Expr
  and : Expr → Expr → Expr
  or : Expr → Expr → Expr
  not : Expr → Expr

abbrev pub protocol_eq : Protocol → Protocol → Bool
protocol_eq tcp tcp = true
protocol_eq udp udp = true
protocol_eq _ _ = false

abbrev pub ip_version_eq : IpVersion → IpVersion → Bool
ip_version_eq ipv4 ipv4 = true
ip_version_eq ipv6 ipv6 = true
ip_version_eq _ _ = false

-- What a filter reads of the thing that it is asked about.
pub record Filterable (F : Type 0) : Type 0 where
  pub pid : F → ℕ
  pub protocol : F → Option Protocol
  pub ip_version : F → IpVersion
  pub local_address : F → IpAddr
  pub remote_address : F → IpAddr
  pub local_port : F → ℕ
  pub remote_port : F → ℕ
