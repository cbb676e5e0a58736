-- ===== src/Filter/Syntax/Agreeing/Rules.antt =====
-- ptraf-filter/src/frontend.rs: each rule of the grammar agrees with itself, and those that contain the
-- rule `logic` do so for two rules that agree on shorter texts.
use ptraf.Shared.{
  ℕ, suc, ◌+◌, ◌≤◌, ◌≡◌, refl, ap, Bool, true, false, Option, none, some, [], ◌∷◌, ◌⊎◌, length,
  Bool-cases, inl, inr, ◌==◌, arith,
}
use ptraf.Shared.Texts.{Text, Parser, ◌>>◌, pure, lift, literal, span, span1, codes, non_empty}
use ptraf.Filter.Expr.{Expr}
use ptraf.Filter.Grammar.{
  spaces, is_space, number, word, bracketed, pid_rule, port_number, ports, addr_any, addrs, operand,
  group, negation_word, negation, atom, infix_rule, operator,
}
use ptraf.Filter.Syntax.Agreeing.{Agrees, fewer, pure-Agrees, or-Agrees, bind-Agrees, then-Agrees}

abbrev rest_length : {A : Type 0} → Option (A × Text) → ℕ
rest_length none = 0
rest_length (some (a, r)) = length r

length-span : (p : ℕ → Bool) (s : Text) → length (span p s).1 ≤ length s
unfolding span
length-span p [] = omega arith
length-span p (c ∷ s) = let ih = length-span p s in ground arith

literal_reads :
    (w s r : Text) (a : Unit {0}) → literal w s ≡ some (a, r) → length r + length w ≤ length s
unfolding literal
literal_reads [] s r a e = let f = ap (λ o. rest_length o) e in omega arith
literal_reads (c ∷ w) [] r a e = absurd cc
literal_reads (c ∷ w) (x ∷ s) r a e = elim (Bool-cases (x == c)) [
  | inl same ↦ let k = literal_reads w s r a (rw same at e) in omega arith
  | inr other ↦ let f = rw other at e in absurd cc
]

spaces-Agrees : (n : ℕ) → Agrees 0 n spaces spaces
unfolding spaces
spaces-Agrees n = record {
  same = λ s l. refl;
  reads = λ s r a l e.
      let k = length-span is_space s in let f = ap (λ o. rest_length o) e in omega arith;
}

literal-Agrees : (n c : ℕ) (cs : Text) → Agrees 1 n (literal (c ∷ cs)) (literal (c ∷ cs))
unfolding literal
literal-Agrees n c cs = record {
  same = λ s l. refl;
  reads = λ s r a l e. let k = literal_reads (c ∷ cs) s r a e in omega arith;
}

span1-Agrees : (n : ℕ) (p : ℕ → Bool) → Agrees 0 n (span1 p) (span1 p)
unfolding span1
span1-Agrees n p = record {
  same = λ s l. refl;
  reads =
      λ s r a l e. let k = length-span p s in go s r a k (Bool-cases (non_empty (span p s).0)) e;
}
  where
    go :
        (s r a : Text)
        → length (span p s).1 ≤ length s
        → (non_empty (span p s).0 ≡ true) ⊎ (non_empty (span p s).0 ≡ false)
        → span1 p s ≡ some (a, r)
        → length r + 0 ≤ length s
    go s r a k (inl some') e = let f = ap (λ o. rest_length o) (rw some' at e) in omega arith
    go s r a k (inr none') e = let f = rw none' at e in absurd cc

lift-Agrees : {A : Type 0} (n : ℕ) (o : Option A) → Agrees 0 n (lift o) (lift o)
lift-Agrees n none = record { same = λ s l. refl; reads = λ s r a l e. absurd cc }
lift-Agrees n (some a) = pure-Agrees n a

number-Agrees : (n limit : ℕ) → Agrees 0 n (number limit) (number limit)
unfolding number
number-Agrees n limit = bind-Agrees (span1-Agrees n _) (λ a. lift-Agrees n _)

word-Agrees : (n c : ℕ) (cs : Text) (e : Expr) → Agrees 0 n (word (c ∷ cs) e) (word (c ∷ cs) e)
unfolding word
word-Agrees n c cs e = bind-Agrees (spaces-Agrees n) (λ _.
    bind-Agrees (fewer (literal-Agrees n c cs))
      (λ _. bind-Agrees (spaces-Agrees n) (λ _. pure-Agrees n e)))

bracketed-Agrees :
    {A : Type 0} (n c : ℕ) (cs : Text) (p : Parser A) (f : A → Expr)
    → Agrees 0 n p p
    → Agrees 0 n (bracketed (c ∷ cs) p f) (bracketed (c ∷ cs) p f)
unfolding bracketed
bracketed-Agrees n c cs p f h = bind-Agrees (spaces-Agrees n) (λ _.
    bind-Agrees (fewer (literal-Agrees n c cs)) (λ _. bind-Agrees h (λ a.
      bind-Agrees (fewer (literal-Agrees n b']' []))
        (λ _. bind-Agrees (spaces-Agrees n) (λ _. pure-Agrees n (f a))))))

operand-Agrees : (n : ℕ) → Agrees 0 n operand operand
unfolding operand pid_rule ports port_number addrs addr_any
operand-Agrees n = or-Agrees (bracketed-Agrees n b'p' (codes "id[") _ _ (number-Agrees n _)) (
    or-Agrees (word-Agrees n b'u' (codes "dp") _) (
      or-Agrees (word-Agrees n b't' (codes "cp") _) (
        or-Agrees (word-Agrees n b'i' (codes "pv4") _) (
          or-Agrees (word-Agrees n b'i' (codes "pv6") _) (
            or-Agrees
              (or-Agrees (bracketed-Agrees n b'p' (codes "ort[") _ _ (number-Agrees n _)) (
                or-Agrees (bracketed-Agrees n b'l' (codes "port[") _ _ (number-Agrees n _))
                  (bracketed-Agrees n b'r' (codes "port[") _ _ (number-Agrees n _))))
              (or-Agrees (bracketed-Agrees n b'a' (codes "ddr[") _ _ addr) (
                or-Agrees (bracketed-Agrees n b'l' (codes "addr[") _ _ addr)
                  (bracketed-Agrees n b'r' (codes "addr[") _ _ addr))))))))
  where
    addr : Agrees 0 n addr_any addr_any
    addr = bind-Agrees (span1-Agrees n _) (λ a. lift-Agrees n _)

group-Agrees : {n : ℕ} {p q : Parser Expr} → Agrees 0 n p q → Agrees 1 (suc n) (group p) (group q)
unfolding group
group-Agrees {n} h = then-Agrees (literal-Agrees (suc n) b'(' []) (λ _.
    bind-Agrees (spaces-Agrees n) (λ _. bind-Agrees h (λ e.
      bind-Agrees (spaces-Agrees n)
        (λ _. bind-Agrees (fewer (literal-Agrees n b')' [])) (λ _. pure-Agrees n e)))))

negation_word-Agrees : (n : ℕ) → Agrees 1 n negation_word negation_word
unfolding negation_word
negation_word-Agrees n = or-Agrees (literal-Agrees n b'n' (codes "ot")) (literal-Agrees n b'!' [])

-- A phrase without an operator needs the rule `logic` on shorter texts only.
pub atom-Agrees : {n : ℕ} {p q : Parser Expr} → Agrees 0 n p q → Agrees 0 (suc n) (atom p) (atom q)
unfolding atom negation
atom-Agrees {n} h =
    or-Agrees
      (or-Agrees
        (after
          (bind-Agrees (spaces-Agrees (suc n)) (λ _. bind-Agrees (operand-Agrees (suc n)) ending)))
        (after
          (bind-Agrees (spaces-Agrees (suc n)) (λ _. bind-Agrees (fewer (group-Agrees h)) ending))))
      (or-Agrees (operand-Agrees (suc n)) (fewer (group-Agrees h)))
  where
    ending :
        (e : Expr) → Agrees 0 (suc n) (spaces >> pure (Expr.not e)) (spaces >> pure (Expr.not e))
    ending e = bind-Agrees (spaces-Agrees (suc n)) (λ _. pure-Agrees (suc n) (Expr.not e))

    after :
        {p q : Parser Expr}
        → Agrees 0 (suc n) p q
        → Agrees 0 (suc n) (negation_word >> p) (negation_word >> q)
    after k = bind-Agrees (fewer (negation_word-Agrees (suc n))) (λ _. k)

infix-Agrees :
    {n : ℕ} {p q : Parser Expr} (c c' : ℕ) (cs cs' : Text) (join : Expr → Expr → Expr) (a : Expr)
    → Agrees 0 n p q
    → Agrees 1
        (suc n)
        (infix_rule (c ∷ cs) (c' ∷ cs') join p a)
        (infix_rule (c ∷ cs) (c' ∷ cs') join q a)
unfolding infix_rule
infix-Agrees {n} c c' cs cs' join a h = bind-Agrees (spaces-Agrees (suc n)) (λ _.
    then-Agrees (or-Agrees (literal-Agrees (suc n) c cs) (literal-Agrees (suc n) c' cs'))
      (λ _. bind-Agrees (spaces-Agrees n) (λ _. bind-Agrees h (λ b. pure-Agrees n (join a b)))))

-- An operator is a character at least, so its right operand is on a shorter text.
pub operator-Agrees :
    {n : ℕ} {p q : Parser Expr} (a : Expr)
    → Agrees 0 n p q
    → Agrees 1 (suc n) (operator p a) (operator q a)
unfolding operator
operator-Agrees a h =
    or-Agrees (infix-Agrees b'o' b'|' (codes "r") (codes "|") Expr.or a h)
      (infix-Agrees b'a' b'&' (codes "nd") (codes "&") Expr.and a h)
