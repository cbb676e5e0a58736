-- ===== src/Filter/Syntax/Examples.antt =====
-- The theorems on the grammar, on concrete texts.
use ptraf.Shared.{◌≡◌, refl, inr, none, some, [], ◌∷◌, arith}
use ptraf.Shared.Results.{ok}
use ptraf.Shared.Texts.{codes, is_digit, decimal}
use ptraf.Filter.Expr.{Expr, tcp}
use ptraf.Filter.Grammar.{filter, logic_or, whole}
use ptraf.Filter.Syntax.{
  blank, tab, either, tcp_word, pid_of, port_of, not_symbol, or_word, and_symbol, plain,
  negated_group, end, link, linked, Sentence, IsSentence, sentence_text, meaning,
}
use ptraf.Filter.Syntax.Complete.{filter-sentence_text}
use ptraf.Filter.Syntax.Sound.{filter-Sentence}
use ptraf.Filter.Syntax.Fuel.{filter-logic_or}
use ptraf.Filter.Syntax.Ranges.{InRange, filter-InRange}

-- The sentence ` tcp or pid[42] && !(port[80] )`, with a tab at its end.
abbrev sentence : Sentence
sentence = record {
  before = blank ∷ [];
  phrase = linked (plain tcp_word) (
      link (blank ∷ []) or_word (blank ∷ []) (plain (pid_of (codes "42"))) (
        link (blank ∷ []) and_symbol (blank ∷ [])
          (negated_group not_symbol [] [] (linked (plain (port_of either (codes "80"))) end)
            (blank ∷ []))
          end));
  after = tab ∷ [];
}

spelled : sentence_text sentence ≡ codes " tcp or pid[42] && !(port[80] )\t"
spelled = refl

sentence-IsSentence : IsSentence sentence
unfolding is_digit decimal
sentence-IsSentence = record {
  phrase = (
    tt,
    (
      ((λ e. cc), (refl, (refl, tt)), omega arith),
      ((((λ e. cc), (refl, (refl, tt)), omega arith), tt), tt),
    ),
  );
  before = inr refl;
  after = inr refl;
}

filter-sentence_text_example : filter (sentence_text sentence) ≡ ok (meaning sentence.phrase)
filter-sentence_text_example = filter-sentence_text sentence sentence-IsSentence

-- A filter that parses.
abbrev tcp_or_pid : Expr
tcp_or_pid = Expr.or (Expr.protocol tcp) (Expr.pid 42)

parses : filter (codes "(tcp||pid[42])") ≡ ok tcp_or_pid
unfolding filter
parses = refl

filter-Sentence_example :
    (s : Sentence) × IsSentence s
    × (sentence_text s ≡ codes "(tcp||pid[42])")
    × (meaning s.phrase ≡ tcp_or_pid)
filter-Sentence_example = filter-Sentence (codes "(tcp||pid[42])") tcp_or_pid parses

-- Without fuel the loop would refuse, and the rule accept.
filter-logic_or_example :
    whole (logic_or (λ a s. none) (λ s. some (tcp_or_pid, [])) 100 (codes "(tcp||pid[42])"))
    ≡ filter (codes "(tcp||pid[42])")
filter-logic_or_example =
    filter-logic_or (λ a s. none) (λ s. some (tcp_or_pid, [])) 100 (codes "(tcp||pid[42])")
      (omega arith)

filter-InRange_example : InRange tcp_or_pid
filter-InRange_example = filter-InRange (codes "(tcp||pid[42])") tcp_or_pid parses
