-- ===== src/Filter/Syntax/Complete.antt =====
-- ptraf-filter/src/frontend.rs: the rules `logic` and `filter` on the text of a phrase.
use ptraf.Shared.{
  ℕ, suc, zero, ◌≤◌, ◌≡◌, refl, ap, ◌∙◌, ◌⊎◌, inl, inr, Bool, true, false, some, none, [], ◌∷◌,
  ◌++◌, length, arith,
}
use ptraf.Shared.Results.{ok}
use ptraf.Shared.Texts.{Text, Parser, span, literal, pure}
use ptraf.Filter.Expr.{Expr}
use ptraf.Filter.Grammar.{
  is_space, spaces, operator, atom, filter, with_operators, whole, infix_rule, logic_or,
}
use ptraf.Filter.Syntax.{operators, logic}
use ptraf.Filter.Syntax.{
  blank, tab, Spaces, blanks, operand_text, Sign, not_word, not_symbol, Operator, operator_text,
  operator_meaning, Level, term, links, chain, Phrase, plain, group, negated, negated_group, end,
  link, linked, text, meaning, IsPhrase, takes_spaces, is_plain, Sentence, IsSentence,
  sentence_text,
}
use ptraf.Filter.Syntax.Spaces.{skip, skip-blanks, settle, skip-settle}
use ptraf.Filter.Syntax.Atoms.{
  atom-plain, atom-negated, atom-group, atom-negated_group, skip-operand_text,
}
use ptraf.Filter.Syntax.Links.{
  operator-skip, operator_lem, skip-operator_text, operators_next, operators_last,
}
use ptraf.Filter.Syntax.Lengths.{depth, count, length_behind, length-text, count-length}

-- A phrase that is not a list of links does not begin with a space.
skip-term : (t : Phrase term) (s : Text) → skip (text t s) ≡ text t s
unfolding is_space
skip-term (plain o) s = skip-operand_text o s
skip-term (group b c b') s = refl
skip-term (negated not_word b o) s = refl
skip-term (negated not_symbol b o) s = refl
skip-term (negated_group not_word b b' c b'') s = refl
skip-term (negated_group not_symbol b b' c b'') s = refl

skip-chain : (c : Phrase chain) (s : Text) → skip (text c s) ≡ text c s
skip-chain (linked t ls) s = skip-term t (text ls s)

-- No operator follows.
Stops : Text → Type 0
Stops s = (right : Parser Expr) (a : Expr) → operator right a (skip s) ≡ none

Stops-close : (b : Spaces) (s : Text) → Stops (blanks b ++ b')' ∷ s)
unfolding Stops operator infix_rule literal spaces is_space span
Stops-close b s right a = ap (operator right a) (skip-blanks b (b')' ∷ s))

skip-blanks_all : (b : Spaces) → skip (blanks b) ≡ []
unfolding is_space
skip-blanks_all [] = refl
skip-blanks_all (blank ∷ b) = skip-blanks_all b
skip-blanks_all (tab ∷ b) = skip-blanks_all b

Stops-blanks : (b : Spaces) → Stops (blanks b)
unfolding Stops operator infix_rule literal spaces is_space span
Stops-blanks b right a = ap (operator right a) (skip-blanks_all b)

-- What the rules read of a phrase of each level.
Reads : (l : Level) → Phrase l → Type 0
unfolding Stops
Reads term t =
    (f : ℕ) (s : Text) (b : Bool)
    → depth t ≤ f
    → atom (logic f) (text t s) ≡ some (meaning t, settle (takes_spaces b t) s)
Reads links ls =
    (f n : ℕ) (s : Text) (b : Bool) (a : Expr)
    → depth ls ≤ f
    → count ls ≤ n
    → Stops s
    → operators (atom (logic f)) n a (settle b (text ls s))
      ≡ some (meaning ls a, settle (takes_spaces b ls) s)
Reads chain c =
    (f : ℕ) (s : Text)
    → depth c ≤ f
    → Stops s
    → logic (suc f) (text c s) ≡ some (meaning c, settle (takes_spaces false c) s)

group-Reads :
    (b : Spaces) (c : Phrase chain) (b' : Spaces) → Reads chain c → Reads term (group b c b')
unfolding Reads is_space
group-Reads b c b' r zero s x d = absurd (omega arith)
group-Reads b c b' r (suc f) s x d =
    let u = blanks b' ++ b')' ∷ s in
    atom-group (logic (suc f)) b (text c u) (settle (takes_spaces false c) u) s (meaning c)
      (skip-chain c u) (r f u (omega arith) (Stops-close b' s))
      (skip-settle (takes_spaces false c) u ∙ skip-blanks b' (b')' ∷ s))

negated_group-Reads :
    (m : Sign) (b b' : Spaces) (c : Phrase chain) (b'' : Spaces)
    → Reads chain c
    → Reads term (negated_group m b b' c b'')
unfolding Reads is_space
negated_group-Reads m b b' c b'' r zero s x d = absurd (omega arith)
negated_group-Reads m b b' c b'' r (suc f) s x d =
    let u = blanks b'' ++ b')' ∷ s in
    atom-negated_group (logic (suc f)) m b b' (text c u) (settle (takes_spaces false c) u) s
      (meaning c) (skip-chain c u) (r f u (omega arith) (Stops-close b'' s))
      (skip-settle (takes_spaces false c) u ∙ skip-blanks b'' (b')' ∷ s))

end-Reads : Reads links end
unfolding Reads Stops
end-Reads f n s b a d c stops =
    let right = atom (logic f) in
    operators_last right n a (settle b s)
      (operator-skip right a (settle b s) ∙ ap (operator right a) (skip-settle b s) ∙ stops right a)

link-Reads :
    (b : Spaces) (o : Operator) (b' : Spaces) (t : Phrase term) (ls : Phrase links)
    → Reads term t
    → Reads links ls
    → Reads links (link b o b' t ls)
unfolding Reads
link-Reads b o b' t ls rt rl f zero s x a d c stops = absurd (omega arith)
link-Reads b o b' t ls rt rl f (suc n) s x a d c stops =
    let right = atom (logic f) in
    let v = text t (text ls s) in
    let u = operator_text o ++ (blanks b' ++ v) in
    let s0 = settle x (blanks b ++ u) in
    let after = settle (takes_spaces x t) (text ls s) in
    operators_next right n a (operator_meaning o a (meaning t)) s0 after (
      operator-skip right a s0
      ∙ ap (operator right a)
          (skip-settle x (blanks b ++ u) ∙ skip-blanks b u ∙ skip-operator_text o (blanks b' ++ v))
      ∙ operator_lem right a o b' v (meaning t) after (skip-term t (text ls s))
          (rt f (text ls s) x (omega arith)))
    ∙ rl f n s (takes_spaces x t) (operator_meaning o a (meaning t)) (omega arith) (omega arith)
        stops

-- A term that has been read, and the links behind it.
logic-linked :
    (f : ℕ) (x : Text) (t : Phrase term) (ls : Phrase links) (s : Text)
    → atom (logic f) x ≡ some (meaning t, settle (takes_spaces false t) (text ls s))
    → Reads links ls
    → depth ls ≤ f
    → Stops s
    → logic (suc f) x ≡ some (meaning (linked t ls), settle (takes_spaces false (linked t ls)) s)
unfolding Reads logic_or
logic-linked f x t ls s h rl d stops =
    ap (with_operators pure (atom (logic f))) h
    ∙ rl f (suc (length (settle (takes_spaces false t) (text ls s)))) s (takes_spaces false t)
        (meaning t) d (let c = count-length ls (takes_spaces false t) s in omega arith) stops

linked-Reads :
    (t : Phrase term) (ls : Phrase links)
    → Reads term t
    → Reads links ls
    → Reads chain (linked t ls)
unfolding Reads
linked-Reads t ls rt rl f s d stops =
    logic-linked f (text t (text ls s)) t ls s (rt f (text ls s) false (omega arith)) rl
      (omega arith) stops

reads : {l : Level} (p : Phrase l) → IsPhrase p → Reads l p
unfolding Reads
reads (plain o) h = λ f s b d. atom-plain (logic f) [] o s h
reads (group b c b') h = group-Reads b c b' (reads c h)
reads (negated m b o) h = λ f s _ d. atom-negated (logic f) m b o s h
reads (negated_group m b b' c b'') h = negated_group-Reads m b b' c b'' (reads c h)
reads end h = end-Reads
reads (link b o b' t ls) h = link-Reads b o b' t ls (reads t h.0) (reads ls h.1)
reads (linked t ls) h = linked-Reads t ls (reads t h.0) (reads ls h.1)

settle-nil : (b : Bool) → settle b [] ≡ []
settle-nil true = refl
settle-nil false = refl

-- Nothing is left of a sentence.
settled :
    (c : Phrase chain) (a : Spaces)
    → (a ≡ []) ⊎ (takes_spaces false c ≡ true)
    → settle (takes_spaces false c) (blanks a) ≡ []
settled c a (inl none') =
    ap (λ a. settle (takes_spaces false c) (blanks a)) none' ∙ settle-nil (takes_spaces false c)
settled c a (inr takes) = ap (λ b. settle b (blanks a)) takes ∙ skip-blanks_all a

-- The rule `logic` on a chain that may have spaces before it.
logic-chain :
    (f : ℕ) (b : Spaces) (c : Phrase chain) (a : Spaces)
    → IsPhrase c
    → (b ≡ []) ⊎ (is_plain c ≡ true)
    → depth c ≤ f
    → logic (suc f) (blanks b ++ text c (blanks a))
      ≡ some (meaning c, settle (takes_spaces false c) (blanks a))
unfolding Reads
logic-chain f [] c a h e d = reads c h f (blanks a) d (Stops-blanks a)
logic-chain f (x ∷ b) (linked (plain o) ls) a h e d =
    logic-linked f (blanks (x ∷ b) ++ (operand_text o ++ text ls (blanks a))) (plain o) ls
      (blanks a) (atom-plain (logic f) (x ∷ b) o (text ls (blanks a)) h.0) (reads ls h.1)
      (omega arith) (Stops-blanks a)
logic-chain f (x ∷ b) (linked (group _ _ _) ls) a h e d =
    absurd (elim e [ inl e ↦ cc | inr e ↦ cc ])
logic-chain f (x ∷ b) (linked (negated _ _ _) ls) a h e d =
    absurd (elim e [ inl e ↦ cc | inr e ↦ cc ])
logic-chain f (x ∷ b) (linked (negated_group _ _ _ _ _) ls) a h e d =
    absurd (elim e [ inl e ↦ cc | inr e ↦ cc ])

-- Fuel beyond the length of the text is enough for a sentence.
pub logic-sentence_text :
    (f : ℕ) (s : Sentence)
    → IsSentence s
    → length (sentence_text s) ≤ f
    → whole (logic (suc f) (sentence_text s)) ≡ ok (meaning s.phrase)
logic-sentence_text f s h enough =
    let long = length-text s.phrase (blanks s.after) in
    let longer = length_behind (blanks s.before) (text s.phrase (blanks s.after)) in
    ap whole (
      logic-chain f s.before s.phrase s.after h.phrase h.before (omega arith)
      ∙ ap (λ r. some (meaning s.phrase, r)) (settled s.phrase s.after h.after))

-- The text of a sentence, whose numbers and addresses are in range, with spaces only where they may
-- stand, parses to the sentence's meaning, in which operators associate to the left.
pub filter-sentence_text :
    (s : Sentence) → IsSentence s → filter (sentence_text s) ≡ ok (meaning s.phrase)
unfolding filter
filter-sentence_text s h = logic-sentence_text (length (sentence_text s)) s h (omega arith)
