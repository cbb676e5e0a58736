-- ===== src/Filter/Syntax/Spaces.antt =====
-- ptraf-filter/src/frontend.rs: what the pieces of the grammar read of a text.
use ptraf.Shared.{
  ℕ, ◌≤◌, ◌<◌, ◌≡◌, ◌≢◌, refl, ap, ◌∙◌, Bool, true, false, some, [], ◌∷◌, ◌++◌, All, length,
  if◌then◌else◌, Bool-cases, inl, inr, arith,
}
use ptraf.Shared.Texts.{Text, Parser, ◌>>=◌, span, span1, is_digit, decimal, lift}
use ptraf.Std.Ip.{IpAddr}
use ptraf.Std.IpParse.{parse_ip, is_hex}
use ptraf.Filter.Grammar.{is_space, spaces, number, addr_any, is_addr, below}
use ptraf.Filter.Syntax.{blank, tab, Spaces, blanks, IsNumber}

-- What follows the spaces at the start of a text.
abbrev pub skip : Text → Text
skip [] = []
skip (c ∷ s) = let rest = skip s in if is_space c then rest else c ∷ s

pub spaces-skip : (s : Text) → spaces s ≡ some (tt, skip s)
unfolding spaces span
spaces-skip [] = refl
spaces-skip (c ∷ s) = ground (arith, spaces-skip s)

pub skip-blanks : (b : Spaces) (s : Text) → skip (blanks b ++ s) ≡ skip s
unfolding is_space
skip-blanks [] s = refl
skip-blanks (blank ∷ b) s = skip-blanks b s
skip-blanks (tab ∷ b) s = skip-blanks b s

pub skip-skip : (s : Text) → skip (skip s) ≡ skip s
skip-skip [] = refl
skip-skip (c ∷ s) = elim (Bool-cases (is_space c)) [
  | inl yes' ↦ rw yes' (skip-skip s)
  | inr no' ↦ rw no' (rw no' refl)
]

pub length-skip : (s : Text) → length (skip s) ≤ length s
length-skip [] = omega arith
length-skip (c ∷ s) = let ih = length-skip s in ground arith

-- The text that a phrase leaves, which takes spaces after it or does not.
abbrev pub settle : Bool → Text → Text
settle true s = skip s
settle false s = s

pub skip-settle : (b : Bool) (s : Text) → skip (settle b s) ≡ skip s
skip-settle true s = skip-skip s
skip-settle false s = refl

-- A run of characters of a class that something else ends.
span-append :
    (p : ℕ → Bool) (n : Text) (c : ℕ) (s : Text)
    → All (λ x. p x ≡ true) n
    → p c ≡ false
    → span p (n ++ c ∷ s) ≡ (n, c ∷ s)
unfolding span
span-append p [] c s h e = rw e refl
span-append p (x ∷ n) c s h e = rw (span-append p n c s h.1 e) (rw h.0 refl)

span1-append :
    (p : ℕ → Bool) (n : Text) (c : ℕ) (s : Text)
    → n ≢ []
    → All (λ x. p x ≡ true) n
    → p c ≡ false
    → span1 p (n ++ c ∷ s) ≡ some (n, c ∷ s)
unfolding span1
span1-append p [] c s z h e = absurd (z refl)
span1-append p (x ∷ n) c s z h e = rw (span-append p (x ∷ n) c s h e) refl

pub bind-some :
    {A B : Type 0} (p : Parser A) (f : A → Parser B) (s : Text) (a : A) (r : Text)
    → p s ≡ some (a, r)
    → (p >>= f) s ≡ f a r
bind-some p f s a r h = rw (h, ◌>>=◌) refl

pub number_lem :
    (limit : ℕ) (n s : Text)
    → IsNumber limit n
    → number limit (n ++ b']' ∷ s) ≡ some (decimal 0 n, b']' ∷ s)
unfolding number is_digit
number_lem limit n s h =
    bind-some (span1 is_digit) _ (n ++ b']' ∷ s) n (b']' ∷ s)
      (span1-append is_digit n b']' s h.0 h.1 refl)
    ∙ in_range (decimal 0 n) h.2
  where
    in_range : (k : ℕ) → k < limit → lift (below limit k) (b']' ∷ s) ≡ some (k, b']' ∷ s)
    in_range k l = ground arith

pub addr_any_lem :
    (n s : Text) (a : IpAddr)
    → n ≢ []
    → All (λ c. is_addr c ≡ true) n
    → parse_ip n ≡ some a
    → addr_any (n ++ b']' ∷ s) ≡ some (a, b']' ∷ s)
unfolding addr_any is_addr is_hex is_digit
addr_any_lem n s a z h e =
    bind-some (span1 is_addr) _ (n ++ b']' ∷ s) n (b']' ∷ s)
      (span1-append is_addr n b']' s z h refl)
    ∙ ap (λ o. lift o (b']' ∷ s)) e
