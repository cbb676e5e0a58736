-- ===== src/Filter/Syntax/Terms.antt =====
-- ptraf-filter/src/frontend.rs: what a text is that the rule `operand` has read.
use ptraf.Shared.{◌≡◌, refl, sym, ap, ◌∙◌, inl, inr, some, [], ◌∷◌, ◌++◌, append_assoc}
use ptraf.Shared.Texts.{Text, codes, Parser, ◌</>◌}
use ptraf.Filter.Expr.{Expr}
use ptraf.Filter.Grammar.{
  number, port_number, addr_any, bracketed, word, pid_rule, ports, addrs, operand,
}
use ptraf.Filter.Syntax.{
  space_code, Spaces, blanks, Side, either, local, remote, Operand, udp_word, tcp_word, ipv4_word,
  ipv6_word, pid_of, port_of, addr_of, operand_text, operand_meaning, IsOperand, port_meaning,
  addr_meaning, side_text,
}
use ptraf.Filter.Syntax.Operands.{
  port_rule, local_port_rule, remote_port_rule, addr_rule, local_addr_rule, remote_addr_rule,
}
use ptraf.Filter.Syntax.Inversion.{or_some, number-some, addr_any-some, bracketed-some, word-some}

pub blanks-append : (a b : Spaces) (s : Text) → blanks (a ++ b) ++ s ≡ blanks a ++ (blanks b ++ s)
blanks-append [] b s = refl
blanks-append (x ∷ a) b s = ap (λ l. space_code x ∷ l) (blanks-append a b s)

-- An operand that has been read, with the spaces around it.
pub record OperandRead (s : Text) (e : Expr) (r : Text) : Type 0 where
  pub before : Spaces
  pub word : Operand
  pub after : Spaces
  pub is : s ≡ blanks before ++ (operand_text word ++ (blanks after ++ r))
  pub means : operand_meaning word ≡ e
  pub valid : IsOperand word

brackets : (w n x : Text) → w ++ (n ++ b']' ∷ x) ≡ w ++ n ++ codes "]" ++ x
brackets w n x = sym (append_assoc (w ++ n) (codes "]") x ∙ append_assoc w n (b']' ∷ x))

word_read :
    (o : Operand) (s r : Text) (e : Expr)
    → IsOperand o
    → word (operand_text o) (operand_meaning o) s ≡ some (e, r)
    → OperandRead s e r
word_read o s r e v h =
    let (b, b', is, same) = word-some (operand_text o) (operand_meaning o) s r e h in
    record { before = b; word = o; after = b'; is = is; means = same; valid = v }

pid_read : (s r : Text) (e : Expr) → pid_rule s ≡ some (e, r) → OperandRead s e r
unfolding pid_rule
pid_read s r e h =
    let (b, k, t, b', is, read, same) =
      bracketed-some (codes "pid[") (number 4294967296) Expr.pid s r e h in
    let (n, v, value, left) = number-some 4294967296 t (b']' ∷ (blanks b' ++ r)) k read in
    record {
      before = b;
      word = pid_of n;
      after = b';
      is =
          is
          ∙ ap (λ x. blanks b ++ x)
              (ap (λ x. codes "pid[" ++ x) left ∙ brackets (codes "pid[") n (blanks b' ++ r));
      means = ap Expr.pid value ∙ same;
      valid = v;
    }

port_read :
    (side : Side) (s r : Text) (e : Expr)
    → bracketed (side_text side ++ codes "port[") port_number (port_meaning side) s ≡ some (e, r)
    → OperandRead s e r
unfolding port_number
port_read side s r e h =
    let w = side_text side ++ codes "port[" in
    let (b, k, t, b', is, read, same) =
      bracketed-some w (number 65536) (port_meaning side) s r e h in
    let (n, v, value, left) = number-some 65536 t (b']' ∷ (blanks b' ++ r)) k read in
    record {
      before = b;
      word = port_of side n;
      after = b';
      is = is ∙ ap (λ x. blanks b ++ x) (ap (λ x. w ++ x) left ∙ brackets w n (blanks b' ++ r));
      means = ap (port_meaning side) value ∙ same;
      valid = v;
    }

addr_read :
    (side : Side) (s r : Text) (e : Expr)
    → bracketed (side_text side ++ codes "addr[") addr_any (addr_meaning side) s ≡ some (e, r)
    → OperandRead s e r
addr_read side s r e h =
    let w = side_text side ++ codes "addr[" in
    let (b, a, t, b', is, read, same) = bracketed-some w addr_any (addr_meaning side) s r e h in
    let (n, full, chars, parsed, left) = addr_any-some t (b']' ∷ (blanks b' ++ r)) a read in
    record {
      before = b;
      word = addr_of side n a;
      after = b';
      is = is ∙ ap (λ x. blanks b ++ x) (ap (λ x. w ++ x) left ∙ brackets w n (blanks b' ++ r));
      means = same;
      valid = (full, chars, parsed);
    }

-- One of two rules has read an operand.
either_read :
    (p q : Parser Expr)
    → ((s r : Text) (e : Expr) → p s ≡ some (e, r) → OperandRead s e r)
    → ((s r : Text) (e : Expr) → q s ≡ some (e, r) → OperandRead s e r)
    → (s r : Text) (e : Expr) → (p </> q) s ≡ some (e, r)
    → OperandRead s e r
either_read p q hp hq s r e h = elim (or_some p q s (e, r) h) [
  | inl h ↦ hp s r e h
  | inr h ↦ hq s r e h
]

ports_read : (s r : Text) (e : Expr) → ports s ≡ some (e, r) → OperandRead s e r
unfolding ports
ports_read =
    either_read port_rule (local_port_rule </> remote_port_rule) (port_read either)
      (either_read local_port_rule remote_port_rule (port_read local) (port_read remote))

addrs_read : (s r : Text) (e : Expr) → addrs s ≡ some (e, r) → OperandRead s e r
unfolding addrs
addrs_read =
    either_read addr_rule (local_addr_rule </> remote_addr_rule) (addr_read either)
      (either_read local_addr_rule remote_addr_rule (addr_read local) (addr_read remote))

pub operand_read : (s r : Text) (e : Expr) → operand s ≡ some (e, r) → OperandRead s e r
unfolding operand
operand_read =
    let w = λ (o : Operand). word (operand_text o) (operand_meaning o) in
    let after_ipv6 = ports </> addrs in
    let after_ipv4 = w ipv6_word </> after_ipv6 in
    let after_tcp = w ipv4_word </> after_ipv4 in
    let after_udp = w tcp_word </> after_tcp in
    either_read pid_rule (w udp_word </> after_udp) pid_read (
      either_read (w udp_word) after_udp (λ s r e. word_read udp_word s r e tt)
        (either_read (w tcp_word) after_tcp (λ s r e. word_read tcp_word s r e tt)
          (either_read (w ipv4_word) after_ipv4 (λ s r e. word_read ipv4_word s r e tt)
            (either_read (w ipv6_word) after_ipv6 (λ s r e. word_read ipv6_word s r e tt)
              (either_read ports addrs ports_read addrs_read)))))
