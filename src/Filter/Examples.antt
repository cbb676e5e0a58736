-- ===== src/Filter/Examples.antt =====
-- The theorem on filters, for a socket and a parsed filter.
use ptraf.Shared.{◌≡◌, ◌↔◌, true}
use ptraf.Common.Types.{stream}
use ptraf.Std.Ip
use ptraf.Store.Socket.{Socket, socket_filterable}
use ptraf.Filter.Expr
use ptraf.Filter.Interpretor.{Interpretor, filter}
use ptraf.Filter.Matches.{Matches, filter_iff}

abbrev socket : Socket
socket = record {
  pid = 7;
  local = record { ip = Ip.v4 2130706433; port = 80 };
  remote = record { ip = Ip.v4 167772162; port = 443 };
  sock_type = stream;
}

abbrev https_of_seven : Interpretor
https_of_seven = record { ast = Expr.and (Expr.pid 7) (Expr.not (Expr.port 80)) }

filter_iff_example : (filter https_of_seven socket ≡ true) ↔ Matches socket https_of_seven.ast
filter_iff_example = filter_iff socket https_of_seven
