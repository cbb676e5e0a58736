-- ===== src/Filter/Syntax/Ranges.antt =====
-- ptraf-filter/src/frontend.rs: the numbers of a filter that has been parsed.
use ptraf.Shared.{◌<◌, ◌≡◌, subst}
use ptraf.Shared.Results.{ok}
use ptraf.Shared.Texts.{Text}
use ptraf.Filter.Expr.{Expr}
use ptraf.Filter.Grammar.{filter}
use ptraf.Filter.Syntax.{
  either, local, remote, Operand, udp_word, tcp_word, ipv4_word, ipv6_word, pid_of, port_of,
  addr_of, operand_meaning, IsOperand, Operator, or_word, or_symbol, and_word, and_symbol,
  operator_meaning, Level, term, links, chain, Phrase, plain, group, negated, negated_group, end,
  link, linked, meaning, IsPhrase,
}
use ptraf.Filter.Syntax.Sound.{filter-Sentence}

-- Every process id of an expression is a `u32`, and every port a `u16`.
abbrev pub InRange : Expr → Type 0
InRange (Expr.pid n) = n < 4294967296
InRange (Expr.port n) = n < 65536
InRange (Expr.local_port n) = n < 65536
InRange (Expr.remote_port n) = n < 65536
InRange (Expr.and a b) = InRange a × InRange b
InRange (Expr.or a b) = InRange a × InRange b
InRange (Expr.not a) = InRange a
InRange _ = Unit {0}

operand-InRange : (o : Operand) → IsOperand o → InRange (operand_meaning o)
operand-InRange udp_word h = tt
operand-InRange tcp_word h = tt
operand-InRange ipv4_word h = tt
operand-InRange ipv6_word h = tt
operand-InRange (pid_of n) h = h.2
operand-InRange (port_of either n) h = h.2
operand-InRange (port_of local n) h = h.2
operand-InRange (port_of remote n) h = h.2
operand-InRange (addr_of either n a) h = tt
operand-InRange (addr_of local n a) h = tt
operand-InRange (addr_of remote n a) h = tt

operator-InRange :
    (o : Operator) (a b : Expr) → InRange a → InRange b → InRange (operator_meaning o a b)
operator-InRange or_word a b h k = (h, k)
operator-InRange or_symbol a b h k = (h, k)
operator-InRange and_word a b h k = (h, k)
operator-InRange and_symbol a b h k = (h, k)

Ranged : (l : Level) → Phrase l → Type 0
Ranged term p = InRange (meaning p)
Ranged links p = (a : Expr) → InRange a → InRange (meaning p a)
Ranged chain p = InRange (meaning p)

phrase-Ranged : {l : Level} (p : Phrase l) → IsPhrase p → Ranged l p
unfolding Ranged
phrase-Ranged (plain o) h = operand-InRange o h
phrase-Ranged (group b c b') h = phrase-Ranged c h
phrase-Ranged (negated m b o) h = operand-InRange o h
phrase-Ranged (negated_group m b b' c b'') h = phrase-Ranged c h
phrase-Ranged end h = λ a r. r
phrase-Ranged (link b o b' t ls) h =
    let one = phrase-Ranged t h.0 in
    let rest = phrase-Ranged ls h.1 in
    λ a r. rest (operator_meaning o a (meaning t)) (operator-InRange o a (meaning t) r one)
phrase-Ranged (linked t ls) h = phrase-Ranged ls h.1 (meaning t) (phrase-Ranged t h.0)

-- Where a text parses, every process id of the filter is below 2 ^ 32 and every port below 2 ^ 16.
pub filter-InRange : (input : Text) (e : Expr) → filter input ≡ ok e → InRange e
unfolding Ranged
filter-InRange input e h =
    let (s, v, _, means) = filter-Sentence input e h in
    subst InRange means (phrase-Ranged s.phrase v.phrase)
