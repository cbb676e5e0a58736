-- ===== src/Filter/Syntax/Operands.antt =====
-- ptraf-filter/src/frontend.rs: the rules `operand`, `pid`, `ports`, `addrs` and those below them, on the text
-- of an operand.
use ptraf.Shared.{
  Option-cases, inl, inr, ◌≡◌, refl, sym, ap, ◌∙◌, Option, some, none, [], ◌∷◌, ◌++◌, append_assoc,
  arith,
}
use ptraf.Shared.Texts.{Text, codes, Parser, ◌>>=◌, ◌>>◌, ◌</>◌, pure, span, literal, decimal}
use ptraf.Std.Ip.{IpAddr}
use ptraf.Filter.Expr.{Expr, udp, tcp, ipv4, ipv6}
use ptraf.Filter.Grammar.{
  is_space, spaces, bracketed, word, number, port_number, addr_any, pid_rule, ports, addrs, operand,
}
use ptraf.Filter.Syntax.{
  Side, either, local, remote, Operand, udp_word, tcp_word, ipv4_word, ipv6_word, pid_of, port_of,
  addr_of, side_text, operand_text, operand_meaning, port_meaning, addr_meaning, IsOperand,
}
use ptraf.Filter.Syntax.Spaces.{skip, spaces-skip, skip-skip, bind-some, number_lem, addr_any_lem}

pub or_left :
    {A : Type 0} (p q : Parser A) (s : Text) (r : A × Text) → p s ≡ some r → (p </> q) s ≡ some r
or_left p q s r h = rw (h, ◌</>◌) refl

pub or_right : {A : Type 0} (p q : Parser A) (s : Text) → p s ≡ none → (p </> q) s ≡ q s
or_right p q s h = rw (h, ◌</>◌) refl

pub literal-append : (w s : Text) → literal w (w ++ s) ≡ some (tt, s)
unfolding literal
literal-append [] s = refl
literal-append (c ∷ w) s = ground (arith, literal-append w s)

-- A rule that begins with spaces reads the same without them.
pub spaces_first :
    {B : Type 0} (f : Unit {0} → Parser B) (s : Text) → (spaces >>= f) s ≡ (spaces >>= f) (skip s)
spaces_first f s =
    bind-some spaces f s tt (skip s) (spaces-skip s)
    ∙ sym (
        bind-some spaces f (skip s) tt (skip s)
          (spaces-skip (skip s) ∙ ap (λ r. some (tt, r)) (skip-skip s)))

abbrev or_else : {A : Type 0} → Option A → Option A → Option A
or_else none b = b
or_else (some a) b = some a

or_else_lem : {A : Type 0} (p q : Parser A) (s : Text) → (p </> q) s ≡ or_else (p s) (q s)
or_else_lem p q s = elim (Option-cases (p s)) [
  | inl none' ↦ rw (none', ◌</>◌) refl
  | inr (r, some') ↦ rw (some', ◌</>◌) refl
]

pub or_first :
    {A : Type 0} {p q : Parser A}
    → ((s : Text) → p s ≡ p (skip s))
    → ((s : Text) → q s ≡ q (skip s))
    → (s : Text) → (p </> q) s ≡ (p </> q) (skip s)
or_first {A} {p} {q} h k s =
    or_else_lem p q s
    ∙ ap (λ o. or_else o (q s)) (h s)
    ∙ ap (or_else (p (skip s))) (k s)
    ∙ sym (or_else_lem p q (skip s))

bracketed_first :
    {A : Type 0} (w : Text) (p : Parser A) (f : A → Expr) (s : Text)
    → bracketed w p f s ≡ bracketed w p f (skip s)
unfolding bracketed
bracketed_first w p f s =
    spaces_first (λ _. literal w >> (p >>= λ a. literal (b']' ∷ []) >> (spaces >> pure (f a)))) s

word_first : (w : Text) (e : Expr) (s : Text) → word w e s ≡ word w e (skip s)
unfolding word
word_first w e s = spaces_first (λ _. literal w >> (spaces >> pure e)) s

-- The rules of the grammar below `ports` and `addrs`.
abbrev pub port_rule : Parser Expr
port_rule = bracketed (codes "port[") port_number Expr.port

abbrev pub local_port_rule : Parser Expr
local_port_rule = bracketed (codes "lport[") port_number Expr.local_port

abbrev pub remote_port_rule : Parser Expr
remote_port_rule = bracketed (codes "rport[") port_number Expr.remote_port

abbrev pub addr_rule : Parser Expr
addr_rule = bracketed (codes "addr[") addr_any Expr.addr

abbrev pub local_addr_rule : Parser Expr
local_addr_rule = bracketed (codes "laddr[") addr_any Expr.local_addr

abbrev pub remote_addr_rule : Parser Expr
remote_addr_rule = bracketed (codes "raddr[") addr_any Expr.remote_addr

ports_first : (s : Text) → ports s ≡ ports (skip s)
unfolding ports
ports_first = or_first (bracketed_first (codes "port[") port_number Expr.port) (
    or_first (bracketed_first (codes "lport[") port_number Expr.local_port)
      (bracketed_first (codes "rport[") port_number Expr.remote_port))

addrs_first : (s : Text) → addrs s ≡ addrs (skip s)
unfolding addrs
addrs_first = or_first (bracketed_first (codes "addr[") addr_any Expr.addr) (
    or_first (bracketed_first (codes "laddr[") addr_any Expr.local_addr)
      (bracketed_first (codes "raddr[") addr_any Expr.remote_addr))

-- An operand may have spaces before it.
pub operand-skip : (s : Text) → operand s ≡ operand (skip s)
unfolding operand pid_rule
operand-skip = or_first (bracketed_first (codes "pid[") (number 4294967296) Expr.pid) (
    or_first (word_first (codes "udp") (Expr.protocol udp)) (
      or_first (word_first (codes "tcp") (Expr.protocol tcp)) (
        or_first (word_first (codes "ipv4") (Expr.ip_version ipv4)) (
          or_first (word_first (codes "ipv6") (Expr.ip_version ipv6))
            (or_first ports_first addrs_first)))))

bracketed_lem :
    {A : Type 0} (w : Text) (p : Parser A) (f : A → Expr) (t s : Text) (a : A)
    → skip (w ++ t) ≡ w ++ t
    → p t ≡ some (a, b']' ∷ s)
    → bracketed w p f (w ++ t) ≡ some (f a, skip s)
unfolding bracketed
bracketed_lem w p f t s a h k =
    let last = λ (a : _). spaces >> pure (f a) in
    let close = λ (a : _). literal (b']' ∷ []) >> last a in
    bind-some spaces (λ _. literal w >> (p >>= close)) (w ++ t) tt (w ++ t)
      (spaces-skip (w ++ t) ∙ ap (λ r. some (tt, r)) h)
    ∙ bind-some (literal w) (λ _. p >>= close) (w ++ t) tt t (literal-append w t)
    ∙ bind-some p close t a (b']' ∷ s) k
    ∙ bind-some (literal (b']' ∷ [])) (λ _. last a) (b']' ∷ s) tt s (literal-append (b']' ∷ []) s)
    ∙ bind-some spaces (λ _. pure (f a)) s tt (skip s) (spaces-skip s)

word_read : (e : Expr) (s : Text) → (spaces >> pure e) s ≡ some (e, skip s)
unfolding spaces
word_read e s = bind-some spaces (λ _. pure e) s tt (skip s) (spaces-skip s)

ports_lem :
    (side : Side) (n s : Text)
    → IsOperand (port_of side n)
    → ports (side_text side ++ codes "port[" ++ n ++ b']' ∷ s)
      ≡ some (port_meaning side (decimal 0 n), skip s)
unfolding ports port_number bracketed literal spaces is_space span
ports_lem either n s h =
    or_left port_rule (local_port_rule </> remote_port_rule) (codes "port[" ++ n ++ b']' ∷ s) _ (
      bracketed_lem (codes "port[") (number 65536) Expr.port (n ++ b']' ∷ s) s (decimal 0 n) refl
        (number_lem 65536 n s h))
ports_lem local n s h =
    or_left local_port_rule remote_port_rule (codes "lport[" ++ n ++ b']' ∷ s) _ (
      bracketed_lem (codes "lport[") (number 65536) Expr.local_port (n ++ b']' ∷ s) s (decimal 0 n)
        refl (number_lem 65536 n s h))
ports_lem remote n s h =
    bracketed_lem (codes "rport[") (number 65536) Expr.remote_port (n ++ b']' ∷ s) s (decimal 0 n)
      refl (number_lem 65536 n s h)

addrs_lem :
    (side : Side) (n : Text) (a : IpAddr) (s : Text)
    → IsOperand (addr_of side n a)
    → addrs (side_text side ++ codes "addr[" ++ n ++ b']' ∷ s) ≡ some (addr_meaning side a, skip s)
unfolding addrs bracketed literal spaces is_space span
addrs_lem either n a s h =
    or_left addr_rule (local_addr_rule </> remote_addr_rule) (codes "addr[" ++ n ++ b']' ∷ s) _ (
      bracketed_lem (codes "addr[") addr_any Expr.addr (n ++ b']' ∷ s) s a refl
        (addr_any_lem n s a h.0 h.1 h.2))
addrs_lem local n a s h =
    or_left local_addr_rule remote_addr_rule (codes "laddr[" ++ n ++ b']' ∷ s) _ (
      bracketed_lem (codes "laddr[") addr_any Expr.local_addr (n ++ b']' ∷ s) s a refl
        (addr_any_lem n s a h.0 h.1 h.2))
addrs_lem remote n a s h =
    bracketed_lem (codes "raddr[") addr_any Expr.remote_addr (n ++ b']' ∷ s) s a refl
      (addr_any_lem n s a h.0 h.1 h.2)

-- The rules that are tried after `pid`.
abbrev after_pid : Parser Expr
after_pid =
    word (codes "udp") (Expr.protocol udp)
    </> word (codes "tcp") (Expr.protocol tcp)
    </> word (codes "ipv4") (Expr.ip_version ipv4)
    </> word (codes "ipv6") (Expr.ip_version ipv6)
    </> ports
    </> addrs

pub operand_lem :
    (o : Operand) (s : Text)
    → IsOperand o
    → operand (operand_text o ++ s) ≡ some (operand_meaning o, skip s)
unfolding operand pid_rule ports addrs word bracketed literal spaces is_space span port_number
operand_lem udp_word s h = word_read _ s
operand_lem tcp_word s h = word_read _ s
operand_lem ipv4_word s h = word_read _ s
operand_lem ipv6_word s h = word_read _ s
operand_lem (pid_of n) s h = rw append_assoc (
    or_left pid_rule after_pid (codes "pid[" ++ n ++ b']' ∷ s) _ (
      bracketed_lem (codes "pid[") (number 4294967296) Expr.pid (n ++ b']' ∷ s) s (decimal 0 n) refl
        (number_lem 4294967296 n s h)))
operand_lem (port_of either n) s h = rw append_assoc (
    or_left ports addrs (side_text either ++ codes "port[" ++ n ++ b']' ∷ s) _
      (ports_lem either n s h))
operand_lem (port_of local n) s h = rw append_assoc (
    or_left ports addrs (side_text local ++ codes "port[" ++ n ++ b']' ∷ s) _
      (ports_lem local n s h))
operand_lem (port_of remote n) s h = rw append_assoc (
    or_left ports addrs (side_text remote ++ codes "port[" ++ n ++ b']' ∷ s) _
      (ports_lem remote n s h))
operand_lem (addr_of either n a) s h = rw append_assoc (addrs_lem either n a s h)
operand_lem (addr_of local n a) s h = rw append_assoc (addrs_lem local n a s h)
operand_lem (addr_of remote n a) s h = rw append_assoc (addrs_lem remote n a s h)
