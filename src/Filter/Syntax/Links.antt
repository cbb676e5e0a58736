-- ===== src/Filter/Syntax/Links.antt =====
-- ptraf-filter/src/frontend.rs: the operators of the rule `logic`.
use ptraf.Shared.{ℕ, suc, zero, ◌≡◌, refl, ◌∙◌, some, none, ◌++◌}
use ptraf.Shared.Texts.{Text, codes, Parser, ◌>>=◌, ◌>>◌, ◌</>◌, pure, span, literal}
use ptraf.Filter.Expr.{Expr}
use ptraf.Filter.Grammar.{is_space, spaces, infix_rule, operator, operators_or}
use ptraf.Filter.Syntax.{operators}
use ptraf.Filter.Syntax.{
  Spaces, blanks, Operator, or_word, or_symbol, and_word, and_symbol, operator_text,
  operator_meaning,
}
use ptraf.Filter.Syntax.Spaces.{skip, skip-blanks, bind-some}
use ptraf.Filter.Syntax.Operands.{or_left, or_right, or_first, spaces_first}
use ptraf.Filter.Syntax.Atoms.{bind-spaces}

pub skip-operator_text :
    (o : Operator) (s : Text) → skip (operator_text o ++ s) ≡ operator_text o ++ s
unfolding is_space
skip-operator_text or_word s = refl
skip-operator_text or_symbol s = refl
skip-operator_text and_word s = refl
skip-operator_text and_symbol s = refl

module _ (right : Parser Expr) where
  -- An operator may have spaces before it.
  infix_first :
      (long short : Text) (join : Expr → Expr → Expr) (a : Expr) (s : Text)
      → infix_rule long short join right a s ≡ infix_rule long short join right a (skip s)
  unfolding infix_rule
  infix_first long short join a s =
      spaces_first
        (λ _. (literal long </> literal short) >> (spaces >> (right >>= λ b. pure (join a b)))) s

  pub operator-skip : (a : Expr) (s : Text) → operator right a s ≡ operator right a (skip s)
  unfolding operator
  operator-skip a =
      or_first (infix_first (codes "or") (codes "||") Expr.or a)
        (infix_first (codes "and") (codes "&&") Expr.and a)

  infix_lem :
      (long short : Text) (join : Expr → Expr → Expr) (a : Expr) (s t : Text) (b : Spaces)
      (e : Expr) (u : Text)
      → skip s ≡ s
      → (literal long </> literal short) s ≡ some (tt, blanks b ++ t)
      → skip t ≡ t
      → right t ≡ some (e, u)
      → infix_rule long short join right a s ≡ some (join a e, u)
  unfolding infix_rule
  infix_lem long short join a s t b e u h k l m =
      let close = λ (b : Expr). pure (join a b) in
      bind-spaces ((literal long </> literal short) >> (spaces >> (right >>= close))) s s h
      ∙ bind-some (literal long </> literal short) (λ _. spaces >> (right >>= close)) s tt
          (blanks b ++ t) k
      ∙ bind-spaces (right >>= close) (blanks b ++ t) t (skip-blanks b t ∙ l)
      ∙ bind-some right close t e u m

  abbrev or_rule : Expr → Parser Expr
  or_rule a = infix_rule (codes "or") (codes "||") Expr.or right a

  abbrev and_rule : Expr → Parser Expr
  and_rule a = infix_rule (codes "and") (codes "&&") Expr.and right a

  -- An operator and what the rule reads as its right operand.
  pub operator_lem :
      (a : Expr) (o : Operator) (b : Spaces) (t : Text) (e : Expr) (u : Text)
      → skip t ≡ t
      → right t ≡ some (e, u)
      → operator right a (operator_text o ++ (blanks b ++ t)) ≡ some (operator_meaning o a e, u)
  unfolding operator infix_rule literal spaces is_space span
  operator_lem a or_word b t e u h k =
      let s = operator_text or_word ++ (blanks b ++ t) in
      or_left (or_rule a) (and_rule a) s (Expr.or a e, u)
        (infix_lem (codes "or") (codes "||") Expr.or a s t b e u refl refl h k)
  operator_lem a or_symbol b t e u h k =
      let s = operator_text or_symbol ++ (blanks b ++ t) in
      or_left (or_rule a) (and_rule a) s (Expr.or a e, u)
        (infix_lem (codes "or") (codes "||") Expr.or a s t b e u refl refl h k)
  operator_lem a and_word b t e u h k =
      let s = operator_text and_word ++ (blanks b ++ t) in
      or_right (or_rule a) (and_rule a) s refl
      ∙ infix_lem (codes "and") (codes "&&") Expr.and a s t b e u refl refl h k
  operator_lem a and_symbol b t e u h k =
      let s = operator_text and_symbol ++ (blanks b ++ t) in
      or_right (or_rule a) (and_rule a) s refl
      ∙ infix_lem (codes "and") (codes "&&") Expr.and a s t b e u refl refl h k

  -- A round of the loop, and its end.
  pub operators_next :
      (n : ℕ) (a b : Expr) (s t : Text)
      → operator right a s ≡ some (b, t)
      → operators right (suc n) a s ≡ operators right n b t
  unfolding operators_or
  operators_next n a b s t h = rw (h, operators_or) refl

  pub operators_last :
      (n : ℕ) (a : Expr) (s : Text)
      → operator right a s ≡ none
      → operators right n a s ≡ some (a, s)
  unfolding operators_or
  operators_last zero a s h = refl
  operators_last (suc n) a s h = rw (h, operators_or) refl
