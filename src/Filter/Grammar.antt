-- ===== src/Filter/Grammar.antt =====
-- ptraf-filter/src/frontend.rs, the grammar. A rule is a parser; `/` is ordered choice; an action
-- `{? … }` that fails makes its rule fail. The position that an error reports is left out.
mod Tests
use ptraf.Shared.{
  ℕ, zero, suc, ◌+◌, ◌*◌, Bool, true, false, ◌&&◌, ◌||◌, Option, none, some, List, [], ◌∷◌, length,
  ltb, leb, ◌==◌, if◌then◌else◌,
}
use ptraf.Shared.Results.{Result, ok, err}
use ptraf.Shared.Texts.{
  Text, codes, Parser, ◌>>=◌, ◌>>◌, ◌</>◌, pure, failing, lift, literal, span, span1, is_digit,
  decimal,
}
use ptraf.Std.Ip.{IpAddr}
use ptraf.Std.IpParse.{parse_ip, is_hex}
use ptraf.Filter.Expr.{
  Expr, Protocol, tcp, udp, pid, protocol, ip_version, addr, local_addr, remote_addr, port,
  local_port, remote_port, and, or, not,
}
use ptraf.Filter.Expr
use ptraf.Filter.Interpretor.{Interpretor}

unfoldable pub is_space : ℕ → Bool
is_space c = c == b' ' || c == 9

-- The rule `_`, which never fails.
unfoldable pub spaces : Parser (Unit {0})
unfolding is_space span
spaces s = let (run, rest) = span is_space s in some (tt, rest)

-- `n.parse::<u32>()` and `n.parse::<u16>()`, where the text is digits.
abbrev pub below : ℕ → ℕ → Option ℕ
below limit n = if ltb n limit then some n else none

unfoldable pub number : ℕ → Parser ℕ
unfolding span1 is_digit decimal
number limit = do n ← span1 is_digit; lift (below limit (decimal 0 n))

-- A word between spaces.
unfoldable pub word : Text → Expr → Parser Expr
unfolding spaces literal
word w e = do spaces; literal w; spaces; pure e

-- A word with an argument in brackets, between spaces.
unfoldable pub bracketed : {A : Type 0} → Text → Parser A → (A → Expr) → Parser Expr
unfolding spaces literal
bracketed w p f = do spaces; literal w; a ← p; literal (b']' ∷ []); spaces; pure (f a)

unfoldable pub pid_rule : Parser Expr
unfolding bracketed number
pid_rule = bracketed (codes "pid[") (number 4294967296) pid

unfoldable pub port_number : Parser ℕ
unfolding number
port_number = number 65536

unfoldable pub ports : Parser Expr
unfolding bracketed port_number
ports =
    bracketed (codes "port[") port_number port
    </> bracketed (codes "lport[") port_number local_port
    </> bracketed (codes "rport[") port_number remote_port

unfoldable pub is_addr : ℕ → Bool
unfolding is_hex
is_addr c = is_hex c || c == b':' || c == b'.'

unfoldable pub addr_any : Parser IpAddr
unfolding span1 is_addr parse_ip
addr_any = do n ← span1 is_addr; lift (parse_ip n)

unfoldable pub addrs : Parser Expr
unfolding bracketed addr_any
addrs =
    bracketed (codes "addr[") addr_any addr
    </> bracketed (codes "laddr[") addr_any local_addr
    </> bracketed (codes "raddr[") addr_any remote_addr

unfoldable pub operand : Parser Expr
unfolding pid_rule word ports addrs
operand =
    pid_rule
    </> word (codes "udp") (protocol udp)
    </> word (codes "tcp") (protocol tcp)
    </> word (codes "ipv4") (ip_version Expr.ipv4)
    </> word (codes "ipv6") (ip_version Expr.ipv6)
    </> ports
    </> addrs

-- A parenthesised expression, with the spaces inside the parentheses.
unfoldable pub group : Parser Expr → Parser Expr
unfolding spaces literal
group inner = do literal (b'(' ∷ []); spaces; e ← inner; spaces; literal (b')' ∷ []); pure e

unfoldable pub negation_word : Parser (Unit {0})
unfolding literal
negation_word = literal (codes "not") </> literal (codes "!")

-- The two rules of the second level.
unfoldable pub negation : Parser Expr → Parser Expr
unfolding negation_word operand group
negation logic =
    (do negation_word; spaces; e ← operand; spaces; pure (not e))
    </> (do negation_word; spaces; e ← group logic; spaces; pure (not e))

-- An expression with no binary operator outside parentheses: the second and the third level, in
-- the order of the grammar. A right operand is read at this level.
unfoldable pub atom : Parser Expr → Parser Expr
unfolding negation operand group
atom logic = negation logic </> operand </> group logic

-- An operator of the first level and its right operand.
unfoldable pub infix_rule : Text → Text → (Expr → Expr → Expr) → Parser Expr → Expr → Parser Expr
unfolding spaces literal
infix_rule long short join right a = do
  spaces
  literal long </> literal short
  spaces
  b ← right
  pure (join a b)

unfoldable pub operator : Parser Expr → Expr → Parser Expr
unfolding infix_rule
operator right a =
    infix_rule (codes "or") (codes "||") or right a
    </> infix_rule (codes "and") (codes "&&") and right a

-- Operators of the first level associate to the left: what is read becomes the left operand of the
-- next. Each round costs a unit of fuel; without fuel the loop does what its first argument says.
unfoldable pub operators_or : (Expr → Parser Expr) → Parser Expr → ℕ → Expr → Parser Expr
unfolding operator
operators_or unread right zero a s = unread a s
operators_or unread right (suc fuel) a s = elim (operator right a s) [
  | none ↦ some (a, s)
  | some (b, rest) ↦ operators_or unread right fuel b rest
]

abbrev pub with_operators :
    (Expr → Parser Expr) → Parser Expr → Option (Expr × Text) → Option (Expr × Text)
with_operators unread right none = none
with_operators unread right (some (a, rest)) = operators_or unread right (suc (length rest)) a rest

-- The rule `logic`. Each level of parentheses costs a unit of fuel; without fuel the rule does what
-- its second argument says, whatever that reads or refuses.
unfoldable pub logic_or : (Expr → Parser Expr) → Parser Expr → ℕ → Parser Expr
unfolding atom operators_or
logic_or unread spent zero s = spent s
logic_or unread spent (suc fuel) s =
    with_operators unread (atom (logic_or unread spent fuel)) (atom (logic_or unread spent fuel) s)

pub data ParseError : Type 0 where
  parse_error : ParseError

abbrev pub whole : Option (Expr × Text) → Result Expr ParseError
whole (some (e, [])) = ok e
whole _ = err parse_error

-- The public rule `filter` reads the whole input, with fuel enough for every text.
unfoldable pub filter : Text → Result Expr ParseError
unfolding logic_or
filter input = whole (logic_or pure failing (suc (length input)) input)

abbrev interpret : Result Expr ParseError → Result Interpretor ParseError
interpret (ok e) = ok (record { ast = e })
interpret (err x) = err x

-- `Interpretor::parse`.
unfoldable pub parse : Text → Result Interpretor ParseError
unfolding filter
parse input = interpret (filter input)
