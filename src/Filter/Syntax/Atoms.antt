-- ===== src/Filter/Syntax/Atoms.antt =====
-- ptraf-filter/src/frontend.rs: the rule `logic` without its recursion: groups, negations and one operator.
use ptraf.Shared.{◌≡◌, refl, ap, ◌∙◌, some, none, [], ◌∷◌, ◌++◌}
use ptraf.Shared.Texts.{Text, Parser, ◌>>=◌, ◌>>◌, ◌</>◌, pure, span, literal}
use ptraf.Filter.Expr.{Expr}
use ptraf.Filter.Grammar.{
  is_space, spaces, operand, pid_rule, word, ports, addrs, bracketed, group, negation_word,
  negation, atom,
}
use ptraf.Filter.Syntax.{
  blank, tab, Spaces, blanks, either, local, remote, Operand, udp_word, tcp_word, ipv4_word,
  ipv6_word, pid_of, port_of, addr_of, operand_text, operand_meaning, IsOperand, Sign, not_word,
  not_symbol, sign_text,
}
use ptraf.Filter.Syntax.Spaces.{skip, spaces-skip, skip-blanks, skip-skip, bind-some}
use ptraf.Filter.Syntax.Operands.{or_left, or_right, literal-append, operand-skip, operand_lem}

pub bind-none :
    {A B : Type 0} (p : Parser A) (f : A → Parser B) (s : Text) → p s ≡ none → (p >>= f) s ≡ none
bind-none p f s h = rw (h, ◌>>=◌) refl

-- Spaces that a rule takes, before something else.
pub bind-spaces : {B : Type 0} (f : Parser B) (s t : Text) → skip s ≡ t → (spaces >> f) s ≡ f t
bind-spaces f s t h = bind-some spaces (λ _. f) s tt t (spaces-skip s ∙ ap (λ r. some (tt, r)) h)

-- No operand begins with a space or with a negation.
pub skip-operand_text : (o : Operand) (s : Text) → skip (operand_text o ++ s) ≡ operand_text o ++ s
unfolding is_space
skip-operand_text udp_word s = refl
skip-operand_text tcp_word s = refl
skip-operand_text ipv4_word s = refl
skip-operand_text ipv6_word s = refl
skip-operand_text (pid_of n) s = refl
skip-operand_text (port_of either n) s = refl
skip-operand_text (port_of local n) s = refl
skip-operand_text (port_of remote n) s = refl
skip-operand_text (addr_of either n a) s = refl
skip-operand_text (addr_of local n a) s = refl
skip-operand_text (addr_of remote n a) s = refl

no_negation : (o : Operand) (s : Text) → negation_word (operand_text o ++ s) ≡ none
unfolding negation_word literal
no_negation udp_word s = refl
no_negation tcp_word s = refl
no_negation ipv4_word s = refl
no_negation ipv6_word s = refl
no_negation (pid_of n) s = refl
no_negation (port_of either n) s = refl
no_negation (port_of local n) s = refl
no_negation (port_of remote n) s = refl
no_negation (addr_of either n a) s = refl
no_negation (addr_of local n a) s = refl
no_negation (addr_of remote n a) s = refl

no_negation_blanks :
    (b : Spaces) (o : Operand) (s : Text) → negation_word (blanks b ++ (operand_text o ++ s)) ≡ none
unfolding negation_word literal
no_negation_blanks [] o s = no_negation o s
no_negation_blanks (blank ∷ b) o s = refl
no_negation_blanks (tab ∷ b) o s = refl

sign_lem : (m : Sign) (s : Text) → negation_word (sign_text m ++ s) ≡ some (tt, s)
unfolding negation_word literal
sign_lem not_word s = refl
sign_lem not_symbol s = refl

module _ (logic : Parser Expr) where
  negation_fails : (s : Text) → negation_word s ≡ none → negation logic s ≡ none
  unfolding negation
  negation_fails s h =
      or_right (negation_word >> (spaces >> (operand >>= λ e. spaces >> pure (Expr.not e))))
        (negation_word >> (spaces >> (group logic >>= λ e. spaces >> pure (Expr.not e)))) s
        (bind-none negation_word (λ _. spaces >> (operand >>= λ e. spaces >> pure (Expr.not e))) s
          h)
      ∙ bind-none negation_word (λ _. spaces >> (group logic >>= λ e. spaces >> pure (Expr.not e)))
          s h

  -- An operand between spaces.
  pub atom-plain :
      (b : Spaces) (o : Operand) (s : Text)
      → IsOperand o
      → atom logic (blanks b ++ (operand_text o ++ s)) ≡ some (operand_meaning o, skip s)
  unfolding atom
  atom-plain b o s h =
      let x = blanks b ++ (operand_text o ++ s) in
      or_right (negation logic) (operand </> group logic) x
        (negation_fails x (no_negation_blanks b o s))
      ∙ or_left operand (group logic) x (operand_meaning o, skip s)
          (operand-skip x
            ∙ ap operand (skip-blanks b (operand_text o ++ s) ∙ skip-operand_text o s)
            ∙ operand_lem o s h)

  -- A group, where the rule reads what is in it.
  group_lem :
      (b : Spaces) (t u s : Text) (e : Expr)
      → skip t ≡ t
      → logic t ≡ some (e, u)
      → skip u ≡ b')' ∷ s
      → group logic (b'(' ∷ (blanks b ++ t)) ≡ some (e, s)
  unfolding group
  group_lem b t u s e h k l =
      bind-some (literal (b'(' ∷ []))
        (λ _. spaces >> (logic >>= λ e. spaces >> (literal (b')' ∷ []) >> pure e)))
        (b'(' ∷ (blanks b ++ t)) tt (blanks b ++ t) (literal-append (b'(' ∷ []) (blanks b ++ t))
      ∙ bind-spaces (logic >>= λ e. spaces >> (literal (b')' ∷ []) >> pure e)) (blanks b ++ t) t
          (skip-blanks b t ∙ h)
      ∙ bind-some logic (λ e. spaces >> (literal (b')' ∷ []) >> pure e)) t e u k
      ∙ bind-spaces (literal (b')' ∷ []) >> pure e) u (b')' ∷ s) l
      ∙ bind-some (literal (b')' ∷ [])) (λ _. pure e) (b')' ∷ s) tt s (literal-append (b')' ∷ []) s)

  -- A negated operand.
  pub atom-negated :
      (m : Sign) (b : Spaces) (o : Operand) (s : Text)
      → IsOperand o
      → atom logic (sign_text m ++ (blanks b ++ (operand_text o ++ s)))
        ≡ some (Expr.not (operand_meaning o), skip s)
  unfolding atom negation
  atom-negated m b o s h =
      let close = λ (e : Expr). spaces >> pure (Expr.not e) in
      let t = operand_text o ++ s in
      let x = sign_text m ++ (blanks b ++ t) in
      let r : Expr × Text = (Expr.not (operand_meaning o), skip s) in
      or_left (negation logic) (operand </> group logic) x r (
        or_left (negation_word >> (spaces >> (operand >>= close)))
          (negation_word >> (spaces >> (group logic >>= close))) x r
          (bind-some negation_word (λ _. spaces >> (operand >>= close)) x tt (blanks b ++ t)
              (sign_lem m (blanks b ++ t))
            ∙ bind-spaces (operand >>= close) (blanks b ++ t) t
                (skip-blanks b t ∙ skip-operand_text o s)
            ∙ bind-some operand close t (operand_meaning o) (skip s) (operand_lem o s h)
            ∙ bind-spaces (pure (Expr.not (operand_meaning o))) (skip s) (skip s) (skip-skip s)))

  no_operand : (s : Text) → operand (b'(' ∷ s) ≡ none
  unfolding operand pid_rule word ports addrs bracketed literal spaces is_space span
  no_operand s = refl

  -- A group that stands alone.
  pub atom-group :
      (b : Spaces) (t u s : Text) (e : Expr)
      → skip t ≡ t
      → logic t ≡ some (e, u)
      → skip u ≡ b')' ∷ s
      → atom logic (b'(' ∷ (blanks b ++ t)) ≡ some (e, s)
  unfolding atom negation_word literal
  atom-group b t u s e h k l =
      let x = b'(' ∷ (blanks b ++ t) in
      or_right (negation logic) (operand </> group logic) x (negation_fails x refl)
      ∙ or_right operand (group logic) x (no_operand (blanks b ++ t))
      ∙ group_lem b t u s e h k l

  -- A negated group.
  pub atom-negated_group :
      (m : Sign) (b b' : Spaces) (t u s : Text) (e : Expr)
      → skip t ≡ t
      → logic t ≡ some (e, u)
      → skip u ≡ b')' ∷ s
      → atom logic (sign_text m ++ (blanks b ++ b'(' ∷ (blanks b' ++ t)))
        ≡ some (Expr.not e, skip s)
  unfolding atom negation is_space
  atom-negated_group m b b' t u s e h k l =
      let close = λ (e : Expr). spaces >> pure (Expr.not e) in
      let y = b'(' ∷ (blanks b' ++ t) in
      let x = sign_text m ++ (blanks b ++ y) in
      let before = skip-blanks b y in
      let first = negation_word >> (spaces >> (operand >>= close)) in
      let second = negation_word >> (spaces >> (group logic >>= close)) in
      or_left (negation logic) (operand </> group logic) x (Expr.not e, skip s)
        (or_right first second x (
            bind-some negation_word (λ _. spaces >> (operand >>= close)) x tt (blanks b ++ y)
              (sign_lem m (blanks b ++ y))
            ∙ bind-spaces (operand >>= close) (blanks b ++ y) y before
            ∙ bind-none operand close y (no_operand (blanks b' ++ t)))
          ∙ (bind-some negation_word (λ _. spaces >> (group logic >>= close)) x tt (blanks b ++ y)
                (sign_lem m (blanks b ++ y))
              ∙ bind-spaces (group logic >>= close) (blanks b ++ y) y before
              ∙ bind-some (group logic) close y e s (group_lem b' t u s e h k l)
              ∙ bind-spaces (pure (Expr.not e)) s (skip s) refl))
