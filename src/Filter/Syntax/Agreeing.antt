-- ===== src/Filter/Syntax/Agreeing.antt =====
-- ptraf-filter/src/frontend.rs: parsers that agree on short texts. A rule that reads a character
-- before it goes on with another one needs the other one on shorter texts only.
pub mod Rules
use ptraf.Shared.{
  ℕ, suc, ◌+◌, ◌<◌, ◌≤◌, ◌≡◌, refl, ap, ◌∙◌, sym, Bool, true, false, Option, none, some, [], ◌∷◌,
  ◌⊎◌, length, Bool-cases, Option-cases, inl, inr, ◌==◌, arith,
}
use ptraf.Shared.Texts.{
  Text, Parser, ◌>>=◌, ◌>>◌, ◌</>◌, pure, lift, literal, span, span1, codes, non_empty,
}
use ptraf.Filter.Expr.{Expr}
use ptraf.Filter.Grammar.{
  spaces, is_space, number, word, bracketed, pid_rule, port_number, ports, addr_any, addrs, operand,
  group, negation_word, negation, atom, infix_rule, operator,
}
use ptraf.Filter.Syntax.Spaces.{bind-some}
use ptraf.Filter.Syntax.Atoms.{bind-none}
use ptraf.Filter.Syntax.Operands.{or_left, or_right}
use ptraf.Filter.Syntax.Inversion.{bind_some}

module _ {A : Type 0} where
  -- On texts of fewer than `n` characters the parsers give the same, and what they read leaves so
  -- many characters less, `d` at least.
  pub record Agrees (d n : ℕ) (p q : Parser A) : Type 0 where
    pub same : (s : Text) → length s < n → p s ≡ q s
    pub reads : (s r : Text) (a : A) → length s < n → q s ≡ some (a, r) → length r + d ≤ length s

  pub lower : {d m n : ℕ} {p q : Parser A} → m ≤ n → Agrees d n p q → Agrees d m p q
  lower h k = record {
    same = λ s l. k.same s (omega arith);
    reads = λ s r a l e. k.reads s r a (omega arith) e;
  }

  pub fewer : {n : ℕ} {p q : Parser A} → Agrees 1 n p q → Agrees 0 n p q
  fewer k = record { same = k.same; reads = λ s r a l e. let x = k.reads s r a l e in omega arith }

  pub pure-Agrees : (n : ℕ) (a : A) → Agrees 0 n (pure a) (pure a)
  pure-Agrees n a = record { same = λ s l. refl; reads = λ s r b l e. left s r b e }
    where
      left : (s r : Text) (b : A) → pure a s ≡ some (b, r) → length r + 0 ≤ length s
      left s r b e = let same : s ≡ r = cc in let l = ap length same in omega arith

  pub or-Agrees :
      {d n : ℕ} {p p' q q' : Parser A}
      → Agrees d n p p'
      → Agrees d n q q'
      → Agrees d n (p </> q) (p' </> q')
  or-Agrees {d} {n} {p} {p'} {q} {q'} h k = record {
    same = λ s l. elim (Option-cases (p' s)) [
      | inl none' ↦ or_right p q s (h.same s l ∙ none') ∙ k.same s l ∙ sym (or_right p' q' s none')
      | inr (r, some') ↦ or_left p q s r (h.same s l ∙ some') ∙ sym (or_left p' q' s r some')
    ];
    reads = λ s r a l e. elim (Option-cases (p' s)) [
      | inl none' ↦ k.reads s r a l (sym (or_right p' q' s none') ∙ e)
      | inr (x, some') ↦ h.reads s r a l (some' ∙ sym (or_left p' q' s x some') ∙ e)
    ];
  }

module _ {A B : Type 0} where
  bind_same :
      (p q : Parser A) {k l : A → Parser B} {s : Text}
      → p s ≡ q s
      → ((a : A) (r : Text) → q s ≡ some (a, r) → k a r ≡ l a r)
      → (p >>= k) s ≡ (q >>= l) s
  bind_same p q {k} {l} {s} h g = elim (Option-cases (q s)) [
    | inl none' ↦ bind-none p k s (h ∙ none') ∙ sym (bind-none q l s none')
    | inr ((a, r), some') ↦
        bind-some p k s a r (h ∙ some') ∙ g a r some' ∙ sym (bind-some q l s a r some')
  ]

  pub bind-Agrees :
      {d n : ℕ} {p q : Parser A} {k l : A → Parser B}
      → Agrees 0 n p q
      → ((a : A) → Agrees d n (k a) (l a))
      → Agrees d n (p >>= k) (q >>= l)
  bind-Agrees {d} {n} {p} {q} {k} {l} h g = record {
    same = λ s x.
        bind_same p q {k = k} {l = l} (h.same s x)
          (λ a r e. let y = h.reads s r a x e in (g a).same r (omega arith));
    reads = λ s r b x e.
        let (a, t, read, then') = bind_some q l s (b, r) e in
        let y = h.reads s t a x read in
        let z = (g a).reads t r b (omega arith) then' in omega arith;
  }

  -- After a character has been read, the texts are shorter.
  pub then-Agrees :
      {n : ℕ} {p q : Parser A} {k l : A → Parser B}
      → Agrees 1 (suc n) p q
      → ((a : A) → Agrees 0 n (k a) (l a))
      → Agrees 1 (suc n) (p >>= k) (q >>= l)
  then-Agrees {n} {p} {q} {k} {l} h g = record {
    same = λ s x.
        bind_same p q {k = k} {l = l} (h.same s x)
          (λ a r e. let y = h.reads s r a x e in (g a).same r (omega arith));
    reads = λ s r b x e.
        let (a, t, read, then') = bind_some q l s (b, r) e in
        let y = h.reads s t a x read in
        let z = (g a).reads t r b (omega arith) then' in omega arith;
  }
