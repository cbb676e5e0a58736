-- ===== src/Filter/Syntax/Sound.antt =====
-- ptraf-filter/src/frontend.rs: what a text is that the rules `logic` and `filter` have read.
use ptraf.Shared.{
  ℕ, zero, suc, ◌≡◌, refl, sym, ap, ◌∙◌, ◌⊎◌, inl, inr, Bool, true, false, some, [], ◌∷◌, ◌++◌,
  append-nil, Option-cases, length,
}
use ptraf.Shared.Results.{ok, err}
use ptraf.Shared.Texts.{Text, codes, Parser, ◌>>=◌, ◌>>◌, ◌</>◌, pure, literal}
use ptraf.Filter.Expr.{Expr}
use ptraf.Filter.Grammar.{
  spaces, atom, operator, infix_rule, with_operators, filter, whole, logic_or, operators_or,
}
use ptraf.Filter.Syntax.{logic, operators}
use ptraf.Filter.Syntax.{
  Spaces, blanks, Operator, or_word, or_symbol, and_word, and_symbol, operator_text,
  operator_meaning, term, links, Phrase, end, link, linked, text, meaning, IsPhrase, takes_spaces,
  Sentence, IsSentence, sentence_text,
}
use ptraf.Filter.Syntax.Links.{operators_next, operators_last}
use ptraf.Filter.Syntax.Inversion.{
  none_some, bind_some, or_some, literal-some, spaces-some, pure-some,
}
use ptraf.Filter.Syntax.Terms.{blanks-append}
use ptraf.Filter.Syntax.Groups.{TermRead, IsSound, atom_read}

-- An operator and its right operand that have been read.
record LinkRead (a : Expr) (s : Text) (e : Expr) (r : Text) : Type 0 where
  before : Spaces
  sign : Operator
  between : Spaces
  phrase : Phrase term
  after : Spaces
  is :
      s
      ≡ blanks before ++ (operator_text sign ++ (blanks between ++ text phrase (blanks after ++ r)))
  means : operator_meaning sign a (meaning phrase) ≡ e
  valid : IsPhrase phrase
  trail : (b : Bool) → (after ≡ []) ⊎ (takes_spaces b phrase ≡ true)

-- Links that have been read behind a phrase with spaces after it.
record LinksRead (b : Bool) (a : Expr) (s : Text) (e : Expr) (r : Text) : Type 0 where
  phrase : Phrase links
  after : Spaces
  is : s ≡ text phrase (blanks after ++ r)
  means : meaning phrase a ≡ e
  valid : IsPhrase phrase
  trail : (after ≡ []) ⊎ (takes_spaces b phrase ≡ true)

module _ (right : Parser Expr)
    (sound : (s r : Text) (e : Expr) → right s ≡ some (e, r) → TermRead s e r) where
  infix_read :
      (long short : Operator) (a : Expr) (s r : Text) (e : Expr)
      → ((b : Expr) → operator_meaning short a b ≡ operator_meaning long a b)
      → infix_rule (operator_text long) (operator_text short) (operator_meaning long) right a s
        ≡ some (e, r)
      → LinkRead a s e r
  unfolding infix_rule
  infix_read long short a s r e same h =
      let close = λ (b : Expr). pure (operator_meaning long a b) in
      let words = literal (operator_text long) </> literal (operator_text short) in
      let (_, s1, h1, k1) =
        bind_some spaces (λ _. words >> (spaces >> (right >>= close))) s (e, r) h in
      let (_, s2, h2, k2) = bind_some words (λ _. spaces >> (right >>= close)) s1 (e, r) k1 in
      let (_, s3, h3, k3) = bind_some spaces (λ _. right >>= close) s2 (e, r) k2 in
      let (b, s4, h4, k4) = bind_some right close s3 (e, r) k3 in
      let (means, left) = pure-some (operator_meaning long a b) e s4 r k4 in
      let (x, is) = spaces-some s s1 tt h1 in
      let (y, is') = spaces-some s2 s3 tt h3 in
      let t = sound s3 s4 b h4 in
      let (o, word, meant) = which s1 s2 h2 in
      record {
        before = x;
        sign = o;
        between = y ++ t.before;
        phrase = t.phrase;
        after = t.after;
        is =
            is
            ∙ ap (λ z. blanks x ++ z)
                (word
                  ∙ ap (λ z. operator_text o ++ z)
                      (is'
                        ∙ ap (λ z. blanks y ++ z)
                            (t.is
                              ∙ ap (λ z. blanks t.before ++ text t.phrase (blanks t.after ++ z))
                                  left)
                        ∙ sym (blanks-append y t.before (text t.phrase (blanks t.after ++ r)))));
        means = meant (meaning t.phrase) ∙ ap (operator_meaning long a) t.means ∙ means;
        valid = t.valid;
        trail = t.trail;
      }
    where
      which :
          (s1 s2 : Text)
          → (literal (operator_text long) </> literal (operator_text short)) s1 ≡ some (tt, s2)
          → (o : Operator) × (s1 ≡ operator_text o ++ s2)
            × ((b : Expr) → operator_meaning o a b ≡ operator_meaning long a b)
      which s1 s2 h =
          elim (or_some (literal (operator_text long)) (literal (operator_text short)) s1 (tt, s2)
            h) [
              | inl h ↦ (long, literal-some (operator_text long) s1 s2 tt h, λ b. refl)
              | inr h ↦ (short, literal-some (operator_text short) s1 s2 tt h, same)
            ]

  operator_read :
      (a : Expr) (s r : Text) (e : Expr) → operator right a s ≡ some (e, r) → LinkRead a s e r
  unfolding operator
  operator_read a s r e h =
      let or_rule = infix_rule (codes "or") (codes "||") Expr.or right a in
      let and_rule = infix_rule (codes "and") (codes "&&") Expr.and right a in
      elim (or_some or_rule and_rule s (e, r) h) [
        | inl h ↦ infix_read or_word or_symbol a s r e (λ b. refl) h
        | inr h ↦ infix_read and_word and_symbol a s r e (λ b. refl) h
      ]

  -- The loop over the operators, from the spaces after the phrase before them.
  operators_read :
      (n : ℕ) (b : Bool) (x : Spaces) (a : Expr) (s r : Text) (e : Expr)
      → (x ≡ []) ⊎ (b ≡ true)
      → operators right n a s ≡ some (e, r)
      → LinksRead b a (blanks x ++ s) e r
  unfolding operators_or
  operators_read zero b x a s r e t h =
      let (same, left) = pure-some a e s r h in
      record {
        phrase = end;
        after = x;
        is = ap (λ z. blanks x ++ z) left;
        means = same;
        valid = tt;
        trail = t;
      }
  operators_read (suc n) b x a s r e t h = elim (Option-cases (operator right a s)) [
    | inl none' ↦
        let (same, left) = pure-some a e s r (sym (operators_last right (suc n) a s none') ∙ h) in
        record {
          phrase = end;
          after = x;
          is = ap (λ z. blanks x ++ z) left;
          means = same;
          valid = tt;
          trail = t;
        }
    | inr ((a', s'), some') ↦
        let l = operator_read a s s' a' some' in
        let rest =
          operators_read n (takes_spaces b l.phrase) l.after a' s' r e (l.trail b)
            (sym (operators_next right n a a' s s' some') ∙ h) in
        record {
          phrase = link (x ++ l.before) l.sign l.between l.phrase rest.phrase;
          after = rest.after;
          is =
              ap (λ z. blanks x ++ z)
                (l.is
                  ∙ ap
                      (λ z.
                        blanks l.before
                        ++ (operator_text l.sign ++ (blanks l.between ++ text l.phrase z)))
                      rest.is)
              ∙ sym (
                  blanks-append x l.before (
                    operator_text l.sign
                    ++ (blanks l.between
                        ++ text l.phrase (text rest.phrase (blanks rest.after ++ r)))));
          means = ap (meaning rest.phrase) l.means ∙ rest.means;
          valid = (l.valid, rest.valid);
          trail = rest.trail;
        }
  ]

logic-IsSound : (f : ℕ) → IsSound (logic f)
unfolding IsSound logic_or
logic-IsSound zero s r e h = none_some h
logic-IsSound (suc f) s r e h = elim (Option-cases (atom (logic f) s)) [
  | inl none' ↦ none_some (sym (ap (with_operators pure (atom (logic f))) none') ∙ h)
  | inr ((a, s'), some') ↦
      let right = atom_read (logic f) (logic-IsSound f) in
      let t = right s s' a some' in
      let ls =
        operators_read (atom (logic f)) right (suc (length s')) (takes_spaces false t.phrase)
          t.after a s' r e (t.trail false)
          (sym (ap (with_operators pure (atom (logic f))) some') ∙ h) in
      record {
        before = t.before;
        phrase = linked t.phrase ls.phrase;
        after = ls.after;
        is = t.is ∙ ap (λ z. blanks t.before ++ text t.phrase z) ls.is;
        means = ap (meaning ls.phrase) t.means ∙ ls.means;
        valid = (t.valid, ls.valid);
        lead = t.lead;
        trail = ls.trail;
      }
]

whole_ok : (a e : Expr) (rest : Text) → whole (some (a, rest)) ≡ ok e → (rest ≡ []) × (a ≡ e)
whole_ok a e [] h = (refl, ap (λ r. elim r [ ok x ↦ x | err y ↦ a ]) h)
whole_ok a e (x ∷ rest) h = absurd cc

-- The same with any fuel.
pub logic-Sentence :
    (f : ℕ) (input : Text) (e : Expr)
    → whole (logic f input) ≡ ok e
    → (s : Sentence) × IsSentence s × (sentence_text s ≡ input) × (meaning s.phrase ≡ e)
unfolding IsSound
logic-Sentence f input e h = elim (Option-cases (logic f input)) [
  | inl none' ↦ absurd (let c : err _ ≡ ok e = sym (ap whole none') ∙ h in cc)
  | inr ((a, rest), some') ↦
      let (left, same) = whole_ok a e rest (sym (ap whole some') ∙ h) in
      let c = logic-IsSound f input rest a some' in
      (
        record { before = c.before; phrase = c.phrase; after = c.after },
        record { phrase = c.valid; before = c.lead; after = c.trail },
        sym (
            c.is
            ∙ ap (λ z. blanks c.before ++ text c.phrase z)
                (ap (λ z. blanks c.after ++ z) left ∙ append-nil (blanks c.after))),
        c.means ∙ same,
      )
]

-- A text that parses is the text of a sentence with the expression as its meaning: its numbers and
-- addresses are in range, and spaces stand only where they may. So the parser accepts nothing else.
pub filter-Sentence :
    (input : Text) (e : Expr)
    → filter input ≡ ok e
    → (s : Sentence) × IsSentence s × (sentence_text s ≡ input) × (meaning s.phrase ≡ e)
unfolding filter
filter-Sentence input e h = logic-Sentence (suc (length input)) input e h
