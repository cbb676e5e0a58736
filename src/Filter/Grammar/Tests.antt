-- ===== src/Filter/Grammar/Tests.antt =====
-- The cases of the tests in ptraf-filter/src/frontend.rs, and some that the grammar refuses.
use ptraf.Shared.{◌≡◌, refl}
use ptraf.Shared.Results.{ok, err}
use ptraf.Shared.Texts.{codes}
use ptraf.Std.Ip.{v4}
use ptraf.Filter.Expr.{pid, protocol, tcp, ip_version, ipv4, addr, and, or, not}
use ptraf.Filter.Grammar.{filter, parse_error}

one_pid : filter (codes "pid[1293]") ≡ ok (pid 1293)
unfolding filter
one_pid = refl

port_too_large : filter (codes "port[1239921232]") ≡ err parse_error
unfolding filter
port_too_large = refl

one_addr : filter (codes "addr[10.0.254.0]") ≡ ok (addr (v4 0x0a00fe00))
unfolding filter
one_addr = refl

same_level :
    filter (codes "pid[3221] or tcp and ipv4")
    ≡ ok (and (or (pid 3221) (protocol tcp)) (ip_version ipv4))
unfolding filter
same_level = refl

symbols :
    filter (codes "pid[3221] && tcp || ipv4")
    ≡ ok (or (and (pid 3221) (protocol tcp)) (ip_version ipv4))
unfolding filter
symbols = refl

grouped :
    filter (codes "(pid[3221] or tcp) and ipv4")
    ≡ ok (and (or (pid 3221) (protocol tcp)) (ip_version ipv4))
unfolding filter
grouped = refl

negated :
    filter (codes "pid[3221] and not (tcp or ipv4)")
    ≡ ok (and (pid 3221) (not (or (protocol tcp) (ip_version ipv4))))
unfolding filter
negated = refl

not_before_or :
    filter (codes "pid[3221] and not tcp or ipv4")
    ≡ ok (or (and (pid 3221) (not (protocol tcp))) (ip_version ipv4))
unfolding filter
not_before_or = refl

-- Spaces may follow an operand, and not a closing parenthesis that ends the filter.
space_after_operand : filter (codes "tcp ") ≡ ok (protocol tcp)
unfolding filter
space_after_operand = refl

space_after_group : filter (codes "(tcp) ") ≡ err parse_error
unfolding filter
space_after_group = refl

double_negation : filter (codes "not not tcp") ≡ err parse_error
unfolding filter
double_negation = refl
