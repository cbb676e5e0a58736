-- ===== src/Filter/Syntax/Groups.antt =====
-- ptraf-filter/src/frontend.rs: what a text is that the rule `logic` has read without an operator.
use ptraf.Shared.{◌≡◌, refl, sym, ap, ◌∙◌, ◌⊎◌, inl, inr, Bool, true, false, some, [], ◌∷◌, ◌++◌}
use ptraf.Shared.Texts.{Text, codes, Parser, ◌>>=◌, ◌>>◌, ◌</>◌, pure, literal}
use ptraf.Filter.Expr.{Expr}
use ptraf.Filter.Grammar.{
  spaces, operand, negation_word, negation, atom, operator, infix_rule, with_operators, filter,
  whole, logic_or, operators_or,
}
use ptraf.Filter.Grammar
use ptraf.Filter.Syntax.{
  Spaces, blanks, operand_text, Sign, not_word, not_symbol, sign_text, term, chain, Phrase, plain,
  group, negated, negated_group, text, meaning, IsPhrase, takes_spaces, is_operand, is_plain,
}
use ptraf.Filter.Syntax.Inversion.{bind_some, or_some, literal-some, spaces-some, pure-some}
use ptraf.Filter.Syntax.Terms.{blanks-append, operand_read}

-- A term, or a chain, that has been read, with the spaces around it.
pub record TermRead (s : Text) (e : Expr) (r : Text) : Type 0 where
  pub before : Spaces
  pub phrase : Phrase term
  pub after : Spaces
  pub is : s ≡ blanks before ++ text phrase (blanks after ++ r)
  pub means : meaning phrase ≡ e
  pub valid : IsPhrase phrase
  pub lead : (before ≡ []) ⊎ (is_operand phrase ≡ true)
  pub trail : (b : Bool) → (after ≡ []) ⊎ (takes_spaces b phrase ≡ true)

pub record ChainRead (s : Text) (e : Expr) (r : Text) : Type 0 where
  pub before : Spaces
  pub phrase : Phrase chain
  pub after : Spaces
  pub is : s ≡ blanks before ++ text phrase (blanks after ++ r)
  pub means : meaning phrase ≡ e
  pub valid : IsPhrase phrase
  pub lead : (before ≡ []) ⊎ (is_plain phrase ≡ true)
  pub trail : (after ≡ []) ⊎ (takes_spaces false phrase ≡ true)

unfoldable pub IsSound : Parser Expr → Type 0
IsSound p = (s r : Text) (e : Expr) → p s ≡ some (e, r) → ChainRead s e r

negation_read :
    (s r : Text) (u : Unit {0})
    → negation_word s ≡ some (u, r)
    → (m : Sign) × (s ≡ sign_text m ++ r)
unfolding negation_word
negation_read s r u h = elim (or_some (literal (codes "not")) (literal (codes "!")) s (u, r) h) [
  | inl h ↦ (not_word, literal-some (codes "not") s r u h)
  | inr h ↦ (not_symbol, literal-some (codes "!") s r u h)
]

-- Spaces around a text that has spaces around it.
pub widened :
    (b b1 b' b2 : Spaces) (f : Text → Text) (t r : Text)
    → t ≡ blanks b1 ++ f (blanks b2 ++ (blanks b' ++ r))
    → blanks b ++ t ≡ blanks (b ++ b1) ++ f (blanks (b2 ++ b') ++ r)
widened b b1 b' b2 f t r h =
    ap (λ x. blanks b ++ x) (h ∙ ap (λ x. blanks b1 ++ f x) (sym (blanks-append b2 b' r)))
    ∙ sym (blanks-append b b1 (f (blanks (b2 ++ b') ++ r)))

abbrev signed : Parser Expr → Parser Expr
signed q = negation_word >> (spaces >> (q >>= λ e. spaces >> pure (Expr.not e)))

-- What stands behind a negation, with the spaces around it.
signed-some :
    (q : Parser Expr) (s r : Text) (e : Expr)
    → signed q s ≡ some (e, r)
    → (m : Sign) × (b : Spaces) × (t : Text) × (e' : Expr) × (b' : Spaces) × (s
        ≡ sign_text m ++ (blanks b ++ t))
      × (q t ≡ some (e', blanks b' ++ r))
      × (Expr.not e' ≡ e)
signed-some q s r e h =
    let close = λ (e : Expr). spaces >> pure (Expr.not e) in
    let (_, s1, h1, k1) = bind_some negation_word (λ _. spaces >> (q >>= close)) s (e, r) h in
    let (_, t, h2, k2) = bind_some spaces (λ _. q >>= close) s1 (e, r) k1 in
    let (e', s3, h3, k3) = bind_some q close t (e, r) k2 in
    let (_, s4, h4, k4) = bind_some spaces (λ _. pure (Expr.not e')) s3 (e, r) k3 in
    let (same, left) = pure-some (Expr.not e') e s4 r k4 in
    let (m, is) = negation_read s s1 tt h1 in
    let (b, is') = spaces-some s1 t tt h2 in
    let (b', is'') = spaces-some s3 s4 tt h4 in
    (
      m,
      b,
      t,
      e',
      b',
      is ∙ ap (λ x. sign_text m ++ x) is',
      h3 ∙ ap (λ x. some (e', x)) (is'' ∙ ap (λ x. blanks b' ++ x) left),
      same,
    )

-- An operand on its own.
plain_read : (s r : Text) (e : Expr) → operand s ≡ some (e, r) → TermRead s e r
plain_read s r e h =
    let o = operand_read s r e h in
    record {
      before = o.before;
      phrase = plain o.word;
      after = o.after;
      is = o.is;
      means = o.means;
      valid = o.valid;
      lead = inr refl;
      trail = λ b. inr refl;
    }

module _ (p : Parser Expr) (sound : IsSound p) where
  group_read :
      (s r : Text) (e : Expr)
      → Grammar.group p s ≡ some (e, r)
      → (b : Spaces) × (c : Phrase chain) × (b' : Spaces) × (s
          ≡ b'(' ∷ (blanks b ++ text c (blanks b' ++ b')' ∷ r)))
        × (meaning c ≡ e)
        × IsPhrase c
  unfolding Grammar.group IsSound
  group_read s r e h =
      let close = λ (e : Expr). literal (b')' ∷ []) >> pure e in
      let inner = λ (e : Expr). spaces >> close e in
      let (_, s1, h1, k1) =
        bind_some (literal (b'(' ∷ [])) (λ _. spaces >> (p >>= inner)) s (e, r) h in
      let (_, s2, h2, k2) = bind_some spaces (λ _. p >>= inner) s1 (e, r) k1 in
      let (e', s3, h3, k3) = bind_some p inner s2 (e, r) k2 in
      let (_, s4, h4, k4) = bind_some spaces (λ _. close e') s3 (e, r) k3 in
      let (_, s5, h5, k5) = bind_some (literal (b')' ∷ [])) (λ _. pure e') s4 (e, r) k4 in
      let (same, left) = pure-some e' e s5 r k5 in
      let c = sound s2 s3 e' h3 in
      let (b, is) = spaces-some s1 s2 tt h2 in
      let (b', is') = spaces-some s3 s4 tt h4 in
      let closed : s3 ≡ blanks b' ++ b')' ∷ r =
        is'
        ∙ ap (λ x. blanks b' ++ x)
            (literal-some (b')' ∷ []) s4 s5 tt h5 ∙ ap (λ x. b')' ∷ x) left) in
      let inside : s2 ≡ blanks c.before ++ text c.phrase (blanks (c.after ++ b') ++ b')' ∷ r) =
        c.is
        ∙ ap (λ x. blanks c.before ++ text c.phrase x)
            (ap (λ x. blanks c.after ++ x) closed ∙ sym (blanks-append c.after b' (b')' ∷ r))) in
      (
        b ++ c.before,
        c.phrase,
        c.after ++ b',
        literal-some (b'(' ∷ []) s s1 tt h1
            ∙ ap (λ x. b'(' ∷ x)
                (is
                  ∙ ap (λ x. blanks b ++ x) inside
                  ∙ sym (
                      blanks-append b c.before
                        (text c.phrase (blanks (c.after ++ b') ++ b')' ∷ r)))),
        c.means ∙ same,
        c.valid,
      )

  negated_read : (s r : Text) (e : Expr) → negation p s ≡ some (e, r) → TermRead s e r
  unfolding negation
  negated_read s r e h = elim (or_some (signed operand) (signed (Grammar.group p)) s (e, r) h) [
    | inl h ↦
        let (m, b, t, e', b', is, read, same) = signed-some operand s r e h in
        let o = operand_read t (blanks b' ++ r) e' read in
        record {
          before = [];
          phrase = negated m (b ++ o.before) o.word;
          after = o.after ++ b';
          is =
              is
              ∙ ap (λ x. sign_text m ++ x)
                  (widened b o.before b' o.after (λ x. operand_text o.word ++ x) t r o.is);
          means = ap Expr.not o.means ∙ same;
          valid = o.valid;
          lead = inl refl;
          trail = λ b. inr refl;
        }
    | inr h ↦
        let (m, b, t, e', b', is, read, same) = signed-some (Grammar.group p) s r e h in
        let (b2, c, b3, is', means, valid) = group_read t (blanks b' ++ r) e' read in
        record {
          before = [];
          phrase = negated_group m b b2 c b3;
          after = b';
          is = is ∙ ap (λ x. sign_text m ++ (blanks b ++ x)) is';
          means = ap Expr.not means ∙ same;
          valid = valid;
          lead = inl refl;
          trail = λ b. inr refl;
        }
  ]

  pub atom_read : (s r : Text) (e : Expr) → atom p s ≡ some (e, r) → TermRead s e r
  unfolding atom
  atom_read s r e h = elim (or_some (negation p) (operand </> Grammar.group p) s (e, r) h) [
    | inl h ↦ negated_read s r e h
    | inr h ↦ elim (or_some operand (Grammar.group p) s (e, r) h) [
      | inl h ↦ plain_read s r e h
      | inr h ↦
          let (b, c, b', is, means, valid) = group_read s r e h in
          record {
            before = [];
            phrase = group b c b';
            after = [];
            is = is;
            means = means;
            valid = valid;
            lead = inl refl;
            trail = λ b. inl refl;
          }
    ]
  ]
