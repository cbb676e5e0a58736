-- ===== src/Std/IpParse.antt =====
-- `IpAddr::from_str` of Rust's standard library (core/src/net/parser.rs).
use ptraf.Shared.{
  ℕ, zero, suc, ◌+◌, ◌-◌, ◌*◌, ◌/◌, ◌%◌, Bool, true, false, ◌&&◌, ◌||◌, Option, none, some, List,
  [], ◌∷◌, ◌++◌, length, ltb, leb, ◌==◌, if◌then◌else◌, not,
}
use ptraf.Shared.Texts.{Text, Parser, ◌>>=◌, ◌>>◌, pure, ◌</>◌, literal, span, is_digit, decimal}
use ptraf.Std.Ip.{IpAddr, v4, v6}

unfoldable pub is_hex : ℕ → Bool
unfolding is_digit
is_hex c = is_digit c || (leb b'a' c && leb c b'f') || (leb b'A' c && leb c b'F')

abbrev hex_digit : ℕ → ℕ
hex_digit c = if leb c b'9' then c - b'0' else if leb c b'F' then c - b'A' + 10 else c - b'a' + 10

unfoldable pub hexadecimal : ℕ → Text → ℕ
hexadecimal acc [] = acc
hexadecimal acc (c ∷ s) = hexadecimal (acc * 16 + hex_digit c) s

abbrev leading_zero : Text → Bool
leading_zero (c ∷ d ∷ s) = c == b'0'
leading_zero _ = false

-- `read_number(10, Some(3), false)` into a `u8`.
unfoldable pub read_octet : Parser ℕ
unfolding span is_digit decimal
read_octet s =
    let (run, rest) = span is_digit s in
    let n = decimal 0 run in
    if ltb 0 (length run) && leb (length run) 3 && not (leading_zero run) && ltb n 256
    then some (n, rest)
    else none

-- `read_number(16, Some(4), true)` into a `u16`.
unfoldable pub read_group : Parser ℕ
unfolding span is_hex hexadecimal
read_group s =
    let (run, rest) = span is_hex s in
    if ltb 0 (length run) && leb (length run) 4 then some (hexadecimal 0 run, rest) else none

-- `read_ipv4_addr`.
unfoldable pub read_ipv4 : Parser ℕ
unfolding read_octet literal
read_ipv4 = do
  a ← read_octet
  literal (b'.' ∷ [])
  b ← read_octet
  literal (b'.' ∷ [])
  c ← read_octet
  literal (b'.' ∷ [])
  d ← read_octet
  pure (a * 16777216 + b * 65536 + c * 256 + d)

-- The numbers of a group that an embedded IPv4 address fills.
abbrev two_groups : ℕ → List ℕ
two_groups n = n / 65536 ∷ n % 65536 ∷ []

separator : Bool → Parser (Unit {0})
unfolding literal
separator first = if first then pure tt else literal (b':' ∷ [])

-- `read_groups` with `limit - i` groups to go, the groups, and whether an IPv4 address ended them.
unfoldable pub read_groups : ℕ → Bool → Text → List ℕ × Bool × Text
unfolding separator read_ipv4 read_group
read_groups zero first s = ([], false, s)
read_groups (suc n) first s =
    let more = λ (rest : Text). read_groups n false rest in
    let group : List ℕ × Bool × Text = elim ((separator first >> read_group) s) [
      | none ↦ ([], false, s)
      | some (g, rest) ↦ let (gs, ended, left) = more rest in (g ∷ gs, ended, left)
    ] in
    if ltb 0 n
    then elim ((separator first >> read_ipv4) s) [
      | none ↦ group
      | some (a, rest) ↦ (two_groups a, true, rest)
    ]
    else group

abbrev zeros : ℕ → List ℕ
zeros zero = []
zeros (suc n) = 0 ∷ zeros n

unfoldable pub join : ℕ → List ℕ → ℕ
join acc [] = acc
join acc (g ∷ gs) = join (acc * 65536 + g) gs

-- The groups before and after `::`, with zeros between.
compressed : List ℕ → Parser IpAddr
unfolding literal read_groups join
compressed head s = elim (literal (b':' ∷ b':' ∷ []) s) [
  | none ↦ none
  | some (_, rest) ↦
      let (tail, _, left) = read_groups (7 - length head) true rest in
      some (v6 (join 0 (head ++ (zeros (8 - length head - length tail) ++ tail))), left)
]

-- `read_ipv6_addr`.
unfoldable pub read_ipv6 : Parser IpAddr
unfolding compressed
read_ipv6 s =
    let (head, ended, rest) = read_groups 8 true s in
    if length head == 8
    then some (v6 (join 0 head), rest)
    else if ended
    then none
    else compressed head rest

abbrev whole : Option (IpAddr × Text) → Option IpAddr
whole (some (a, [])) = some a
whole _ = none

-- The whole text must be an address.
unfoldable pub parse_ip : Text → Option IpAddr
unfolding read_ipv4 read_ipv6
parse_ip s = whole (((read_ipv4 >>= λ n. pure (v4 n)) </> read_ipv6) s)
