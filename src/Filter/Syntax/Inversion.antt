-- ===== src/Filter/Syntax/Inversion.antt =====
-- ptraf-filter/src/frontend.rs: what a text is that a piece of the grammar has read.
use ptraf.Shared.{
  ℕ, ◌<◌, ◌≡◌, ◌≢◌, refl, sym, ap, ◌∙◌, subst, ◌⊎◌, inl, inr, Bool, true, false, Option, some, none,
  [], ◌∷◌, ◌++◌, All, if◌then◌else◌, Bool-cases, Option-cases, arith, ◌==◌, unwrap_or,
}
use ptraf.Shared.Texts.{
  Text, Parser, ◌>>=◌, ◌>>◌, ◌</>◌, pure, span, span1, is_digit, decimal, lift, literal, non_empty,
}
use ptraf.Std.Ip.{IpAddr}
use ptraf.Std.IpParse.{parse_ip}
use ptraf.Filter.Expr.{Expr}
use ptraf.Filter.Grammar.{is_space, spaces, number, addr_any, is_addr, below, bracketed, word}
use ptraf.Filter.Syntax.Spaces.{skip, spaces-skip, bind-some}
use ptraf.Filter.Syntax.Operands.{or_left, or_right}
use ptraf.Filter.Syntax.Atoms.{bind-none}
use ptraf.Filter.Syntax.{blank, tab, Spaces, blanks, IsNumber}

module _ {ℓ} {A : Type ℓ} where
  pub some-injective : {a b : A} → some a ≡ some b → a ≡ b
  some-injective {a} h = ap (λ o. unwrap_or o a) h

  pub none_some : {C : Type 0} {a : A} → ◌≡◌ {A = Option A} none (some a) → C
  none_some h = absurd cc

pub bind_some :
    {A B : Type 0} (p : Parser A) (f : A → Parser B) (s : Text) (r : B × Text)
    → (p >>= f) s ≡ some r
    → (a : A) × (t : Text) × (p s ≡ some (a, t)) × (f a t ≡ some r)
bind_some p f s r h = elim (Option-cases (p s)) [
  | inl none' ↦ none_some (sym (bind-none p f s none') ∙ h)
  | inr ((a, t), some') ↦ (a, t, some', sym (bind-some p f s a t some') ∙ h)
]

pub or_some :
    {A : Type 0} (p q : Parser A) (s : Text) (r : A × Text)
    → (p </> q) s ≡ some r
    → (p s ≡ some r) ⊎ (q s ≡ some r)
or_some p q s r h = elim (Option-cases (p s)) [
  | inl none' ↦ inr (sym (or_right p q s none') ∙ h)
  | inr (x, some') ↦ inl (some' ∙ (sym (or_left p q s x some') ∙ h))
]

pub literal-some : (w s r : Text) (u : Unit {0}) → literal w s ≡ some (u, r) → s ≡ w ++ r
unfolding literal
literal-some [] s r u h = cc
literal-some (c ∷ w) [] r u h = cc
literal-some (c ∷ w) (x ∷ s) r u h = elim (Bool-cases (x == c)) [
  | inl yes' ↦
      ap (λ l. x ∷ l) (literal-some w s r u (sym (taken yes') ∙ h))
      ∙ ap (λ y. y ∷ (w ++ r)) (same yes')
  | inr no' ↦ none_some (sym (refused no') ∙ h)
]
  where
    same : (x == c) ≡ true → x ≡ c
    same e = ground arith

    taken : (x == c) ≡ true → (if x == c then literal w s else none) ≡ literal w s
    taken e = rw e refl

    refused : (x == c) ≡ false → (if x == c then literal w s else none) ≡ none
    refused e = rw e refl

which_space : (c : ℕ) → is_space c ≡ true → (c ≡ b' ') ⊎ (c ≡ 9)
unfolding is_space
which_space c h = ground arith

blanks-skip : (s : Text) → (b : Spaces) × (s ≡ blanks b ++ skip s)
blanks-skip [] = ([], refl)
blanks-skip (c ∷ s) = elim (Bool-cases (is_space c)) [
  | inl yes' ↦
      let (b, e) = blanks-skip s in
      elim (which_space c yes') [
        | inl e32 ↦
            (blank ∷ b, rw yes' (ap (λ l. c ∷ l) e ∙ ap (λ x. x ∷ (blanks b ++ skip s)) e32))
        | inr e9 ↦ (tab ∷ b, rw yes' (ap (λ l. c ∷ l) e ∙ ap (λ x. x ∷ (blanks b ++ skip s)) e9))
      ]
  | inr no' ↦ ([], rw no' refl)
]

-- A text with spaces at its start.
pub spaces-some :
    (s r : Text) (u : Unit {0}) → spaces s ≡ some (u, r) → (b : Spaces) × (s ≡ blanks b ++ r)
spaces-some s r u h =
    let (b, e) = blanks-skip s in
    let same : (tt, skip s) ≡ (u, r) = some-injective (sym (spaces-skip s) ∙ h) in
    (b, e ∙ ap (λ r. blanks b ++ r) (ap (λ p. p.1) same))

-- The longest run of a class, and that the text is the run and the rest.
span_run :
    (p : ℕ → Bool) (s : Text)
    → All (λ c. p c ≡ true) (span p s).0 × (s ≡ (span p s).0 ++ (span p s).1)
unfolding span
span_run p [] = (tt, refl)
span_run p (c ∷ s) = elim (Bool-cases (p c)) [
  | inl yes' ↦ rw yes' ((yes', (span_run p s).0), ap (λ l. c ∷ l) (span_run p s).1)
  | inr no' ↦ rw no' (tt, refl)
]

span1-some :
    (p : ℕ → Bool) (s n r : Text)
    → span1 p s ≡ some (n, r)
    → (n ≢ []) × All (λ c. p c ≡ true) n × (s ≡ n ++ r)
unfolding span1
span1-some p s n r h = elim (Bool-cases (non_empty (span p s).0)) [
  | inl yes' ↦
      let same : (span p s) ≡ (n, r) = some-injective (sym (taken yes') ∙ h) in
      let run = ap (λ x. x.0) same in
      (
        (λ z. let e : true ≡ false = sym yes' ∙ ap non_empty (run ∙ z) in cc),
        subst (All (λ c. p c ≡ true)) run (span_run p s).0,
        (span_run p s).1 ∙ ap (λ x. x.0 ++ x.1) same,
      )
  | inr no' ↦ none_some (sym (refused no') ∙ h)
]
  where
    taken :
        non_empty (span p s).0 ≡ true
        → (if non_empty (span p s).0 then some (span p s) else none) ≡ some (span p s)
    taken e = rw e refl

    refused :
        non_empty (span p s).0 ≡ false
        → (if non_empty (span p s).0 then some (span p s) else none) ≡ none
    refused e = rw e refl

lift-some :
    {A : Type 0} (o : Option A) (t r : Text) (a : A)
    → lift o t ≡ some (a, r)
    → (o ≡ some a) × (t ≡ r)
lift-some none t r a h = none_some h
lift-some (some b) t r a h =
    let same : (b, t) ≡ (a, r) = some-injective h in (ap (λ x. some x.0) same, ap (λ x. x.1) same)

below-some : (limit m k : ℕ) → below limit m ≡ some k → (m < limit) × (m ≡ k)
below-some limit m k h = ground arith

pub number-some :
    (limit : ℕ) (s r : Text) (k : ℕ)
    → number limit s ≡ some (k, r)
    → (n : Text) × IsNumber limit n × (decimal 0 n ≡ k) × (s ≡ n ++ r)
unfolding number
number-some limit s r k h =
    let (n, t, read, rest) =
      bind_some (span1 is_digit) (λ n. lift (below limit (decimal 0 n))) s (k, r) h in
    let (full, digits, is) = span1-some is_digit s n t read in
    let (some', left) = lift-some (below limit (decimal 0 n)) t r k rest in
    let (small, same) = below-some limit (decimal 0 n) k some' in
    (n, (full, digits, small), same, is ∙ ap (λ r. n ++ r) left)

pub addr_any-some :
    (s r : Text) (a : IpAddr)
    → addr_any s ≡ some (a, r)
    → (n : Text) × (n ≢ []) × All (λ c. is_addr c ≡ true) n × (parse_ip n ≡ some a) × (s ≡ n ++ r)
unfolding addr_any
addr_any-some s r a h =
    let (n, t, read, rest) = bind_some (span1 is_addr) (λ n. lift (parse_ip n)) s (a, r) h in
    let (full, chars, is) = span1-some is_addr s n t read in
    let (some', left) = lift-some (parse_ip n) t r a rest in
    (n, full, chars, some', is ∙ ap (λ r. n ++ r) left)

pub pure-some : {A : Type 0} (a b : A) (s r : Text) → pure a s ≡ some (b, r) → (a ≡ b) × (s ≡ r)
pure-some a b s r h =
    let same : (a, s) ≡ (b, r) = some-injective h in (ap (λ x. x.0) same, ap (λ x. x.1) same)

-- A word with an argument in brackets.
pub bracketed-some :
    {A : Type 0} (w : Text) (p : Parser A) (f : A → Expr) (s r : Text) (e : Expr)
    → bracketed w p f s ≡ some (e, r)
    → (b : Spaces) × (a : A) × (t : Text) × (b' : Spaces) × (s ≡ blanks b ++ (w ++ t))
      × (p t ≡ some (a, b']' ∷ (blanks b' ++ r)))
      × (f a ≡ e)
unfolding bracketed
bracketed-some w p f s r e h =
    let last = λ (a : _). spaces >> pure (f a) in
    let close = λ (a : _). literal (b']' ∷ []) >> last a in
    let (_, s1, h1, k1) = bind_some spaces (λ _. literal w >> (p >>= close)) s (e, r) h in
    let (_, t, h2, k2) = bind_some (literal w) (λ _. p >>= close) s1 (e, r) k1 in
    let (a, s3, h3, k3) = bind_some p close t (e, r) k2 in
    let (_, s4, h4, k4) = bind_some (literal (b']' ∷ [])) (λ _. last a) s3 (e, r) k3 in
    let (_, s5, h5, k5) = bind_some spaces (λ _. pure (f a)) s4 (e, r) k4 in
    let (b, is) = spaces-some s s1 tt h1 in
    let (b', is') = spaces-some s4 s5 tt h5 in
    let (same, left) = pure-some (f a) e s5 r k5 in
    (
      b,
      a,
      t,
      b',
      is ∙ ap (λ x. blanks b ++ x) (literal-some w s1 t tt h2),
      h3
          ∙ ap (λ x. some (a, x))
              (literal-some (b']' ∷ []) s3 s4 tt h4
                ∙ ap (λ x. b']' ∷ x) (is' ∙ ap (λ x. blanks b' ++ x) left)),
      same,
    )

pub word-some :
    (w : Text) (f : Expr) (s r : Text) (e : Expr)
    → word w f s ≡ some (e, r)
    → (b : Spaces) × (b' : Spaces) × (s ≡ blanks b ++ (w ++ (blanks b' ++ r))) × (f ≡ e)
unfolding word
word-some w f s r e h =
    let (_, s1, h1, k1) = bind_some spaces (λ _. literal w >> (spaces >> pure f)) s (e, r) h in
    let (_, s2, h2, k2) = bind_some (literal w) (λ _. spaces >> pure f) s1 (e, r) k1 in
    let (_, s3, h3, k3) = bind_some spaces (λ _. pure f) s2 (e, r) k2 in
    let (b, is) = spaces-some s s1 tt h1 in
    let (b', is') = spaces-some s2 s3 tt h3 in
    let (same, left) = pure-some f e s3 r k3 in
    (
      b,
      b',
      is
          ∙ ap (λ x. blanks b ++ x)
              (literal-some w s1 s2 tt h2 ∙ ap (λ x. w ++ x) (is' ∙ ap (λ x. blanks b' ++ x) left)),
      same,
    )
