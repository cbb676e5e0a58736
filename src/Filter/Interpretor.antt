-- ===== src/Filter/Interpretor.antt =====
-- ptraf-filter/src/interpretor.rs: the evaluation of a filter.
use ptraf.Shared.{Bool, true, false, ◌&&◌, ◌||◌, ◌==◌, option_map, unwrap_or}
use ptraf.Shared
use ptraf.Std.Ip.{ip_eq}
use ptraf.Filter.Expr.{Expr, Filterable, protocol_eq, ip_version_eq}

pub record Interpretor : Type 0 where
  pub ast : Expr

module _ {F : Type 0} ⦃filterable : Filterable F⦄ where
  open filterable use {
    pid, protocol, ip_version, local_address, remote_address, local_port, remote_port,
  }

  unfoldable pub eval : F → Expr → Bool
  eval f (Expr.pid n) = pid f == n
  eval f (Expr.protocol p) = unwrap_or (option_map (λ fp. protocol_eq fp p) (protocol f)) false
  eval f (Expr.ip_version v) = ip_version_eq (ip_version f) v
  eval f (Expr.addr a) = ip_eq (local_address f) a || ip_eq (remote_address f) a
  eval f (Expr.local_addr a) = ip_eq (local_address f) a
  eval f (Expr.remote_addr a) = ip_eq (remote_address f) a
  eval f (Expr.port p) = local_port f == p || remote_port f == p
  eval f (Expr.local_port p) = local_port f == p
  eval f (Expr.remote_port p) = remote_port f == p
  eval f (Expr.and a b) = eval f a && eval f b
  eval f (Expr.or a b) = eval f a || eval f b
  eval f (Expr.not a) = Shared.not (eval f a)

  unfoldable pub filter : Interpretor → F → Bool
  unfolding eval
  filter i f = eval f i.ast
