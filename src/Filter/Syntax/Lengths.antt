-- ===== src/Filter/Syntax/Lengths.antt =====
-- ptraf-filter/src/frontend.rs: the lengths of the texts of phrases, which the fuel is compared with.
use ptraf.Shared.{
  ℕ, suc, ◌+◌, ◌≤◌, ◌<◌, max, ap, ◌∙◌, Bool, true, false, ◌∷◌, ◌++◌, length, arith, length-append,
}
use ptraf.Shared.Texts.{Text}
use ptraf.Filter.Syntax.{
  blanks, operand_text, sign_text, Operator, or_word, or_symbol, and_word, and_symbol,
  operator_text, Level, links, Phrase, plain, group, negated, negated_group, end, link, linked,
  text,
}
use ptraf.Filter.Syntax.Spaces.{skip, skip-blanks, length-skip, settle}
use ptraf.Filter.Syntax.Links.{skip-operator_text}

-- How deep the groups of a phrase are, and how many operators stand outside of them.
abbrev pub depth : {l : Level} → Phrase l → ℕ
depth (plain o) = 0
depth (group b c b') = suc (depth c)
depth (negated m b o) = 0
depth (negated_group m b b' c b'') = suc (depth c)
depth end = 0
depth (link b o b' t ls) = max (depth t) (depth ls)
depth (linked t ls) = max (depth t) (depth ls)

abbrev pub count : Phrase links → ℕ
count end = 0
count (link b o b' t ls) = suc (count ls)

pub length_behind : (xs ys : Text) → length ys ≤ length (xs ++ ys)
length_behind xs ys = let h = length-append xs ys in omega (arith, h)

-- The text behind a phrase, and the depth of its groups, are in its length.
pub length-text : {l : Level} (p : Phrase l) (s : Text) → length s + depth p ≤ length (text p s)
length-text (plain o) s = let h = length_behind (operand_text o) s in omega arith
length-text (group b c b') s =
    let u = blanks b' ++ b')' ∷ s in
    let h = length_behind (blanks b') (b')' ∷ s) in
    let k = length-text c u in let l = length_behind (blanks b) (text c u) in omega arith
length-text (negated m b o) s =
    let h = length_behind (operand_text o) s in
    let k = length_behind (blanks b) (operand_text o ++ s) in
    let l = length_behind (sign_text m) (blanks b ++ (operand_text o ++ s)) in omega arith
length-text (negated_group m b b' c b'') s =
    let u = blanks b'' ++ b')' ∷ s in
    let h = length_behind (blanks b'') (b')' ∷ s) in
    let k = length-text c u in
    let l = length_behind (blanks b') (text c u) in
    let n = length_behind (blanks b) (b'(' ∷ (blanks b' ++ text c u)) in
    let o = length_behind (sign_text m) (blanks b ++ b'(' ∷ (blanks b' ++ text c u)) in omega arith
length-text end s = omega arith
length-text (link b o b' t ls) s =
    let h = length-text ls s in
    let k = length-text t (text ls s) in
    let u = blanks b' ++ text t (text ls s) in
    let l = length_behind (blanks b') (text t (text ls s)) in
    let m = length_behind (operator_text o) u in
    let n = length_behind (blanks b) (operator_text o ++ u) in omega arith
length-text (linked t ls) s =
    let h = length-text ls s in let k = length-text t (text ls s) in omega arith

length-operator_text : (o : Operator) (s : Text) → length s < length (operator_text o ++ s)
length-operator_text or_word s = omega arith
length-operator_text or_symbol s = omega arith
length-operator_text and_word s = omega arith
length-operator_text and_symbol s = omega arith

count-skip : (ls : Phrase links) (s : Text) → count ls ≤ length (skip (text ls s))
count-skip end s = omega arith
count-skip (link b o b' t ls) s =
    let u = blanks b' ++ text t (text ls s) in
    let same = ap length (skip-blanks b (operator_text o ++ u) ∙ skip-operator_text o u) in
    let h = count-skip ls s in
    let k = length-skip (text ls s) in
    let l = length-text t (text ls s) in
    let m = length_behind (blanks b') (text t (text ls s)) in
    let n = length-operator_text o u in omega arith

-- The loop over the operators has as much fuel as there are operators.
pub count-length :
    (ls : Phrase links) (b : Bool) (s : Text) → count ls ≤ length (settle b (text ls s))
count-length ls true s = count-skip ls s
count-length ls false s = let h = count-skip ls s in let k = length-skip (text ls s) in omega arith
