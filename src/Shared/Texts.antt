-- ===== src/Shared/Texts.antt =====
-- Text as the list of its code points, and the pieces that parsers are made of: each takes the text
-- and returns what it read with the text that is left, or `none`.
use Prim.Native.Nat.{ℕ, ◌+◌, ◌-◌, ◌*◌}
use Prim.Native.Char.{code}
use Prim.Native.String.{String}
use mathlib.Core.Bool.{Bool, true, false, ◌&&◌}
use mathlib.Core.Option.{Option, none, some}
use mathlib.Core.List.{List, [], ◌∷◌}
use ptraf.Shared.Tests.{leb, ◌==◌, if◌then◌else◌}

abbrev pub Text : Type 0
Text = List ℕ

abbrev pub codes : String → Text
codes String.[] = []
codes (String.◌∷◌ c s) = code c ∷ codes s

abbrev pub Parser : Type 0 → Type 0
Parser A = Text → Option (A × Text)

infixl 5 ◌>>=◌ ◌>>◌
abbrev pub ◌>>=◌ : {A B : Type 0} → Parser A → (A → Parser B) → Parser B
◌>>=◌ p f s = elim (p s) [ none ↦ none | some (a, rest) ↦ f a rest ]

abbrev pub ◌>>◌ : {B : Type 0} → Parser (Unit {0}) → Parser B → Parser B
m >> k = m >>= λ _. k

abbrev pub pure : {A : Type 0} → A → Parser A
pure a s = some (a, s)

abbrev pub failing : {A : Type 0} → Parser A
failing s = none

-- The first of two parsers that succeeds; the second starts over.
infixr 6 ◌</>◌
abbrev pub ◌</>◌ : {A : Type 0} → Parser A → Parser A → Parser A
◌</>◌ p q s = elim (p s) [ none ↦ q s | some r ↦ some r ]

-- A value that may be missing makes the parser fail.
abbrev pub lift : {A : Type 0} → Option A → Parser A
lift none s = none
lift (some a) s = some (a, s)

-- The text must go on with the given one.
unfoldable pub literal : Text → Parser (Unit {0})
literal [] s = some (tt, s)
literal (c ∷ cs) [] = none
literal (c ∷ cs) (x ∷ s) = if x == c then literal cs s else none

-- The longest run of characters of a class, and what follows it.
unfoldable pub span : (ℕ → Bool) → Text → Text × Text
span p [] = ([], [])
span p (c ∷ s) = let (run, rest) = span p s in if p c then (c ∷ run, rest) else ([], c ∷ s)

abbrev pub non_empty : Text → Bool
non_empty [] = false
non_empty (c ∷ s) = true

-- The same, where there must be one character at least.
unfoldable pub span1 : (ℕ → Bool) → Parser Text
unfolding span
span1 p s = let (run, rest) = span p s in if non_empty run then some (run, rest) else none

unfoldable pub is_digit : ℕ → Bool
is_digit c = leb b'0' c && leb c b'9'

-- The number that decimal digits spell, after `acc`.
unfoldable pub decimal : ℕ → Text → ℕ
decimal acc [] = acc
decimal acc (c ∷ s) = decimal (acc * 10 + (c - b'0')) s
