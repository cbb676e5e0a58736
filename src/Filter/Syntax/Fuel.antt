-- ===== src/Filter/Syntax/Fuel.antt =====
-- ptraf-filter/src/frontend.rs: the recursion of the grammar comes to an end before its fuel does.
use ptraf.Shared.{
  ℕ, zero, suc, ◌+◌, ◌<◌, ◌≤◌, ◌≡◌, refl, ap, ◌∙◌, sym, none, some, length, arith, inl, inr,
  Option-cases,
}
use ptraf.Shared.Texts.{Text, Parser, pure, failing}
use ptraf.Filter.Expr.{Expr}
use ptraf.Filter.Grammar.{filter, whole, logic_or, operators_or, with_operators, operator}
use ptraf.Filter.Syntax.Agreeing.{Agrees, lower}
use ptraf.Filter.Syntax.Agreeing.Rules.{atom-Agrees, operator-Agrees}

module _ (u v : Expr → Parser Expr) where
  none_left :
      (p : Parser Expr) (w : Expr → Parser Expr) (f : ℕ) (a : Expr) (s : Text)
      → operator p a s ≡ none
      → operators_or w p (suc f) a s ≡ some (a, s)
  unfolding operators_or
  none_left p w f a s h = rw (h, operators_or) refl

  one_more :
      (p : Parser Expr) (w : Expr → Parser Expr) (f : ℕ) (a b : Expr) (s r : Text)
      → operator p a s ≡ some (b, r)
      → operators_or w p (suc f) a s ≡ operators_or w p f b r
  unfolding operators_or
  one_more p w f a b s r h = rw (h, operators_or) refl

  pure_read : (a : Expr) (s t : Text) (c : Expr) → pure a s ≡ some (c, t) → length t + 0 ≤ length s
  pure_read a s t c e = let same : s ≡ t = cc in let l = ap length same in omega arith

  -- The loop over the operators with fuel for each character that is left, and one more: what it
  -- would do without fuel does not matter.
  operators-Agrees :
      (n f g : ℕ) {p q : Parser Expr} (a : Expr)
      → n ≤ f
      → n ≤ g
      → Agrees 0 n p q
      → Agrees 0 n (operators_or u p f a) (operators_or v q g a)
  operators-Agrees zero f g a h k r = record {
    same = λ s l. absurd (omega arith);
    reads = λ s t b l e. absurd (omega arith);
  }
  operators-Agrees (suc n) zero g a h k r = absurd (omega arith)
  operators-Agrees (suc n) (suc f) zero a h k r = absurd (omega arith)
  operators-Agrees (suc n) (suc f) (suc g) {p} {q} a h k r =
      let less : Agrees 0 n p q = lower (omega arith) r in
      let step : Agrees 1 (suc n) (operator p a) (operator q a) = operator-Agrees a less in
      let shorter = λ (b : Expr). operators-Agrees n f g b (omega arith) (omega arith) less in
      record {
        same = λ s l. elim (Option-cases (operator q a s)) [
          | inl none' ↦
              none_left p u f a s (step.same s l ∙ none') ∙ sym (none_left q v g a s none')
          | inr ((b, t), some') ↦
              let y = step.reads s t b l some' in
              one_more p u f a b s t (step.same s l ∙ some')
              ∙ (shorter b).same t (omega arith)
              ∙ sym (one_more q v g a b s t some')
        ];
        reads = λ s t c l e. elim (Option-cases (operator q a s)) [
          | inl none' ↦ pure_read a s t c (sym (none_left q v g a s none') ∙ e)
          | inr ((b, t'), some') ↦
              let y = step.reads s t' b l some' in
              let z =
                (shorter b).reads t' t c (omega arith) (sym (one_more q v g a b s t' some') ∙ e) in
              omega arith
        ];
      }

  with_operators-Agrees :
      {n : ℕ} {p q : Parser Expr}
      → Agrees 0 n p q
      → Agrees 0 n (λ s. with_operators u p (p s)) (λ s. with_operators v q (q s))
  with_operators-Agrees {n} {p} {q} r = record {
    same = λ s l. elim (Option-cases (q s)) [
      | inl none' ↦
          ap (with_operators u p) (r.same s l ∙ none') ∙ sym (ap (with_operators v q) none')
      | inr ((a, t), some') ↦
          let y = r.reads s t a l some' in
          ap (with_operators u p) (r.same s l ∙ some')
          ∙ (loop t a (omega arith)).same t (omega arith)
          ∙ sym (ap (with_operators v q) some')
    ];
    reads = λ s t c l e. elim (Option-cases (q s)) [
      | inl none' ↦ refused (sym (ap (with_operators v q) none') ∙ e)
      | inr ((a, t'), some') ↦
          let y = r.reads s t' a l some' in
          let z =
            (loop t' a (omega arith)).reads t' t c (omega arith)
              (sym (ap (with_operators v q) some') ∙ e) in
          omega arith
    ];
  }
    where
      loop :
          (t : Text) (a : Expr)
          → suc (length t) ≤ n
          → Agrees 0
              (suc (length t))
              (operators_or u p (suc (length t)) a)
              (operators_or v q (suc (length t)) a)
      loop t a h = operators-Agrees (suc (length t)) _ _ a (omega arith) (omega arith) (lower h r)

      refused : {C : Type 0} {x : Expr × Text} → none ≡ some x → C
      refused h = absurd cc

  logic-Agrees :
      (spent spent' : Parser Expr) (n f g : ℕ)
      → n ≤ f
      → n ≤ g
      → Agrees 0 n (logic_or u spent f) (logic_or v spent' g)
  unfolding logic_or
  logic-Agrees spent spent' zero f g h k = record {
    same = λ s l. absurd (omega arith);
    reads = λ s t b l e. absurd (omega arith);
  }
  logic-Agrees spent spent' (suc n) zero g h k = absurd (omega arith)
  logic-Agrees spent spent' (suc n) (suc f) zero h k = absurd (omega arith)
  logic-Agrees spent spent' (suc n) (suc f) (suc g) h k =
      with_operators-Agrees
        (atom-Agrees (logic-Agrees spent spent' n f g (omega arith) (omega arith)))

-- With any fuel beyond the length of the text, whatever the rule `logic` and its loop over the
-- operators would do without fuel, read something or refuse, the parser gives the result of
-- `filter`: neither ever lacks fuel, whether the text is refused or not.
pub filter-logic_or :
    (unread : Expr → Parser Expr) (spent : Parser Expr) (fuel : ℕ) (input : Text)
    → length input < fuel
    → whole (logic_or unread spent fuel input) ≡ filter input
unfolding filter
filter-logic_or unread spent fuel input h = ap whole (
    (logic-Agrees unread pure spent failing (suc (length input)) fuel (suc (length input))
        (omega arith) (omega arith)).same
      input (omega arith))
