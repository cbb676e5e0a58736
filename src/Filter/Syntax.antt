-- ===== src/Filter/Syntax.antt =====
-- The language of the filters, independent of the parser of ptraf-filter/src/frontend.rs: the
-- phrases as trees that keep every character of their spelling, the text and the meaning of one.
mod Spaces
mod Operands
mod Atoms
mod Links
mod Lengths
pub mod Complete
mod Inversion
mod Terms
mod Groups
mod Agreeing
pub mod Sound
pub mod Fuel
pub mod Ranges
mod Examples
use ptraf.Shared.{
  ℕ, ◌≡◌, ◌≢◌, ◌⊎◌, ◌<◌, Bool, true, false, List, [], ◌∷◌, ◌++◌, some, All, map, if◌then◌else◌,
  ◌||◌,
}
use ptraf.Shared.Texts.{Text, Parser, pure, failing, codes, decimal, is_digit}
use ptraf.Std.Ip.{IpAddr}
use ptraf.Std.IpParse.{parse_ip}
use ptraf.Filter.Expr.{Expr, tcp, udp, ipv4, ipv6}
use ptraf.Filter.Grammar.{is_addr, operators_or, logic_or}

-- The two recursive rules as `filter` runs them.
abbrev pub operators : Parser Expr → ℕ → Expr → Parser Expr
operators = operators_or pure

abbrev pub logic : ℕ → Parser Expr
logic = logic_or pure failing

pub data Space : Type 0 where
  blank tab : Space

abbrev pub space_code : Space → ℕ
space_code blank = b' '
space_code tab = 9

abbrev pub Spaces : Type 0
Spaces = List Space

abbrev pub blanks : Spaces → Text
blanks s = map space_code s

-- Which end of the connection an address or a port is about.
pub data Side : Type 0 where
  either local remote : Side

pub data Operand : Type 0 where
  udp_word tcp_word ipv4_word ipv6_word : Operand
  pid_of : Text → Operand
  port_of : Side → Text → Operand
  addr_of : Side → Text → IpAddr → Operand

pub data Sign : Type 0 where
  not_word not_symbol : Sign

pub data Operator : Type 0 where
  or_word or_symbol and_word and_symbol : Operator

-- A phrase of the language: a term, the operators and terms that follow one, or a chain of both.
pub data Level : Type 0 where
  term links chain : Level

pub data Phrase : Level → Type 0 where
  plain : Operand → Phrase term
  group : Spaces → Phrase chain → Spaces → Phrase term
  negated : Sign → Spaces → Operand → Phrase term
  negated_group : Sign → Spaces → Spaces → Phrase chain → Spaces → Phrase term
  end : Phrase links
  link : Spaces → Operator → Spaces → Phrase term → Phrase links → Phrase links
  linked : Phrase term → Phrase links → Phrase chain

abbrev pub side_text : Side → Text
side_text either = []
side_text local = codes "l"
side_text remote = codes "r"

abbrev pub operand_text : Operand → Text
operand_text udp_word = codes "udp"
operand_text tcp_word = codes "tcp"
operand_text ipv4_word = codes "ipv4"
operand_text ipv6_word = codes "ipv6"
operand_text (pid_of n) = codes "pid[" ++ n ++ codes "]"
operand_text (port_of s n) = side_text s ++ codes "port[" ++ n ++ codes "]"
operand_text (addr_of s n a) = side_text s ++ codes "addr[" ++ n ++ codes "]"

abbrev pub sign_text : Sign → Text
sign_text not_word = codes "not"
sign_text not_symbol = codes "!"

abbrev pub operator_text : Operator → Text
operator_text or_word = codes "or"
operator_text or_symbol = codes "||"
operator_text and_word = codes "and"
operator_text and_symbol = codes "&&"

-- The text of a phrase, with another text behind it.
abbrev pub text : {l : Level} → Phrase l → Text → Text
text (plain o) s = operand_text o ++ s
text (group b c b') s = b'(' ∷ (blanks b ++ text c (blanks b' ++ b')' ∷ s))
text (negated m b o) s = sign_text m ++ (blanks b ++ (operand_text o ++ s))
text (negated_group m b b' c b'') s =
    sign_text m ++ (blanks b ++ b'(' ∷ (blanks b' ++ text c (blanks b'' ++ b')' ∷ s)))
text end s = s
text (link b o b' t ls) s = blanks b ++ (operator_text o ++ (blanks b' ++ text t (text ls s)))
text (linked t ls) s = text t (text ls s)

abbrev pub port_meaning : Side → ℕ → Expr
port_meaning either n = Expr.port n
port_meaning local n = Expr.local_port n
port_meaning remote n = Expr.remote_port n

abbrev pub addr_meaning : Side → IpAddr → Expr
addr_meaning either a = Expr.addr a
addr_meaning local a = Expr.local_addr a
addr_meaning remote a = Expr.remote_addr a

abbrev pub operand_meaning : Operand → Expr
operand_meaning udp_word = Expr.protocol udp
operand_meaning tcp_word = Expr.protocol tcp
operand_meaning ipv4_word = Expr.ip_version ipv4
operand_meaning ipv6_word = Expr.ip_version ipv6
operand_meaning (pid_of n) = Expr.pid (decimal 0 n)
operand_meaning (port_of s n) = port_meaning s (decimal 0 n)
operand_meaning (addr_of s n a) = addr_meaning s a

abbrev pub operator_meaning : Operator → Expr → Expr → Expr
operator_meaning or_word a b = Expr.or a b
operator_meaning or_symbol a b = Expr.or a b
operator_meaning and_word a b = Expr.and a b
operator_meaning and_symbol a b = Expr.and a b

-- Links mean what they make of the expression before them.
abbrev pub Meaning : Level → Type 0
Meaning term = Expr
Meaning links = Expr → Expr
Meaning chain = Expr

-- Every operator has the expression of all that stands before it as its left operand.
abbrev pub meaning : {l : Level} → Phrase l → Meaning l
meaning (plain o) = operand_meaning o
meaning (group s c s') = meaning c
meaning (negated m s o) = Expr.not (operand_meaning o)
meaning (negated_group m s s' c s'') = Expr.not (meaning c)
meaning end = λ a. a
meaning (link s o s' t ls) = λ a. meaning ls (operator_meaning o a (meaning t))
meaning (linked t ls) = meaning ls (meaning t)

-- The numbers are in range, and the addresses are ones.
abbrev pub IsNumber : ℕ → Text → Type 0
IsNumber limit n = (n ≢ []) × All (λ c. is_digit c ≡ true) n × (decimal 0 n < limit)

abbrev pub IsOperand : Operand → Type 0
IsOperand (pid_of n) = IsNumber 4294967296 n
IsOperand (port_of s n) = IsNumber 65536 n
IsOperand (addr_of s n a) = (n ≢ []) × All (λ c. is_addr c ≡ true) n × (parse_ip n ≡ some a)
IsOperand _ = Unit

abbrev pub IsPhrase : {l : Level} → Phrase l → Type 0
IsPhrase (plain o) = IsOperand o
IsPhrase (group s c s') = IsPhrase c
IsPhrase (negated m s o) = IsOperand o
IsPhrase (negated_group m s s' c s'') = IsPhrase c
IsPhrase end = Unit
IsPhrase (link s o s' t ls) = IsPhrase t × IsPhrase ls
IsPhrase (linked t ls) = IsPhrase t × IsPhrase ls

-- Whether spaces may stand before a phrase, and whether they may follow it.
abbrev pub is_operand : Phrase term → Bool
is_operand (plain o) = true
is_operand _ = false

abbrev pub is_plain : Phrase chain → Bool
is_plain (linked t ls) = is_operand t

abbrev pub takes_spaces : {l : Level} → Bool → Phrase l → Bool
takes_spaces b (group s c s') = false
takes_spaces b end = b
takes_spaces b (link s o s' t ls) = takes_spaces (takes_spaces b t) ls
takes_spaces b (linked t ls) = takes_spaces (takes_spaces b t) ls
takes_spaces b _ = true

pub record Sentence : Type 0 where
  pub before : Spaces
  pub phrase : Phrase chain
  pub after : Spaces

pub record IsSentence (s : Sentence) : Type 0 where
  pub phrase : IsPhrase s.phrase
  pub before : (s.before ≡ []) ⊎ (is_plain s.phrase ≡ true)
  pub after : (s.after ≡ []) ⊎ (takes_spaces false s.phrase ≡ true)

abbrev pub sentence_text : Sentence → Text
sentence_text s = blanks s.before ++ text s.phrase (blanks s.after)
