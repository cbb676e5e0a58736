-- ===== src/Ui/Sparkline/Sorted.antt =====
-- Lists in which each element is related to all that follow.
use mathlib.Core.List.{reverse, reverse_aux}
use ptraf.Shared.{
  ◌≡◌, inl, inr, Bool, true, List, [], ◌∷◌, ◌++◌, take_while, drop_while, All, Bool-cases,
}

module _ {A : Type 0} where
  -- Each element is related to all that follow.
  abbrev pub Sorted : (A → A → Type 0) → List A → Type 0
  Sorted R [] = Unit {0}
  Sorted R (x ∷ xs) = All (R x) xs × Sorted R xs

  pub All-map : (P Q : A → Type 0) → ((a : A) → P a → Q a) → (xs : List A) → All P xs → All Q xs
  All-map P Q f [] h = tt
  All-map P Q f (x ∷ xs) h = (f x h.0, All-map P Q f xs h.1)

  pub All-zip : (P Q : A → Type 0) (xs : List A) → All P xs → All Q xs → All (λ a. P a × Q a) xs
  All-zip P Q [] h k = tt
  All-zip P Q (x ∷ xs) h k = ((h.0, k.0), All-zip P Q xs h.1 k.1)

  pub All-append : (P : A → Type 0) (xs ys : List A) → All P xs → All P ys → All P (xs ++ ys)
  All-append P [] ys h k = k
  All-append P (x ∷ xs) ys h k = (h.0, All-append P xs ys h.1 k)

  pub All-reverse_aux :
      (P : A → Type 0) (xs r : List A) → All P xs → All P r → All P (reverse_aux xs r)
  All-reverse_aux P [] r h k = k
  All-reverse_aux P (x ∷ xs) r h k = All-reverse_aux P xs (x ∷ r) h.1 (h.0, k)

  pub All-take_while :
      (P : A → Type 0) (p : A → Bool) (xs : List A)
      → All P xs
      → All (λ a. (p a ≡ true) × P a) (take_while p xs)
  All-take_while P p [] h = tt
  All-take_while P p (x ∷ xs) h = elim (Bool-cases (p x)) [
    | inl yes' ↦ rw (yes', All) ((yes', h.0), All-take_while P p xs h.1)
    | inr no' ↦ rw (no', All) tt
  ]

  pub All-drop_while :
      (P : A → Type 0) (p : A → Bool) (xs : List A) → All P xs → All P (drop_while p xs)
  All-drop_while P p [] h = tt
  All-drop_while P p (x ∷ xs) h = elim (Bool-cases (p x)) [
    | inl yes' ↦ rw (yes', All) (All-drop_while P p xs h.1)
    | inr no' ↦ rw (no', All) h
  ]

  module _ (R : A → A → Type 0) where
    pub Sorted-append :
        (xs ys : List A)
        → Sorted R xs
        → Sorted R ys
        → All (λ x. All (R x) ys) xs
        → Sorted R (xs ++ ys)
    Sorted-append [] ys h k l = k
    Sorted-append (x ∷ xs) ys h k l =
        (All-append (R x) xs ys h.0 l.0, Sorted-append xs ys h.1 k l.1)

    pub Sorted-reverse_aux :
        (xs r : List A)
        → Sorted R xs
        → Sorted (λ a b. R b a) r
        → All (λ x. All (λ y. R y x) r) xs
        → Sorted (λ a b. R b a) (reverse_aux xs r)
    Sorted-reverse_aux [] r h k l = k
    Sorted-reverse_aux (x ∷ xs) r h k l =
        Sorted-reverse_aux xs (x ∷ r) h.1 (l.0, k)
          (All-zip (R x) (λ z. All (λ y. R y z) r) xs h.0 l.1)

    pub Sorted-take_while : (p : A → Bool) (xs : List A) → Sorted R xs → Sorted R (take_while p xs)
    Sorted-take_while p [] h = tt
    Sorted-take_while p (x ∷ xs) h = elim (Bool-cases (p x)) [
      | inl yes' ↦
          rw (yes', Sorted)
            (
              All-map (λ a. (p a ≡ true) × R x a) (R x) (λ a k. k.1) (take_while p xs)
                  (All-take_while (R x) p xs h.0),
              Sorted-take_while p xs h.1,
            )
      | inr no' ↦ rw (no', Sorted) tt
    ]

    pub Sorted-drop_while : (p : A → Bool) (xs : List A) → Sorted R xs → Sorted R (drop_while p xs)
    Sorted-drop_while p [] h = tt
    Sorted-drop_while p (x ∷ xs) h = elim (Bool-cases (p x)) [
      | inl yes' ↦ rw (yes', Sorted) (Sorted-drop_while p xs h.1)
      | inr no' ↦ rw (no', Sorted) h
    ]

  All-trivial : (P : A → Type 0) → ((a : A) → P a) → (xs : List A) → All P xs
  All-trivial P f [] = tt
  All-trivial P f (x ∷ xs) = (f x, All-trivial P f xs)

  pub Sorted-reverse :
      (R : A → A → Type 0) (xs : List A) → Sorted R xs → Sorted (λ a b. R b a) (reverse xs)
  Sorted-reverse R xs h = Sorted-reverse_aux R xs [] h tt (All-trivial (λ x. Unit {0}) (λ x. tt) xs)

  pub All-reverse : (P : A → Type 0) (xs : List A) → All P xs → All P (reverse xs)
  All-reverse P xs h = All-reverse_aux P xs [] h tt
