-- ===== src/Promise/Polling.antt =====
-- A promise that is asked for its value again and again.
use ptraf.Shared.{ℕ, zero, suc, ◌≡◌, refl, sym, ap, ◌∙◌, true, Option, none, some}
use ptraf.Promise.{Promise, Oneshot, pending, resolved, received, is_resolved, unwrap, value}

module _ {ℓ} {T : Type ℓ} (o : Oneshot T) where
  -- The promise after so many calls of `value`.
  unfoldable pub polled : ℕ → Promise o → Promise o
  unfolding value
  polled zero p = p
  polled (suc n) p = polled n (value o p).0

  unwrap-received : (r : o.Receiver × Option T) → unwrap o (received o r).0 ≡ (received o r).1
  unfolding unwrap
  unwrap-received (rx, none) = refl
  unwrap-received (rx, some v) = refl

  unwrap-value : (p : Promise o) → unwrap o (value o p).0 ≡ (value o p).1
  unfolding unwrap value
  unwrap-value (resolved v) = refl
  unwrap-value (pending rx) = unwrap-received (o.try_recv rx)

  unwrap-eq-some : (p : Promise o) (v : T) → unwrap o p ≡ some v → p ≡ resolved v
  unfolding unwrap
  unwrap-eq-some (pending rx) v h = cc
  unwrap-eq-some (resolved w) v h = cc

  polled-resolved : (n : ℕ) (v : T) → polled n (resolved v) ≡ resolved v
  unfolding polled
  polled-resolved zero v = refl
  polled-resolved (suc n) v = polled-resolved n v

  -- Once `value` has given a value, it gives that value ever after and `unwrap` does not panic,
  -- however often the promise is asked in between and whatever the channel would answer.
  pub value-polled :
      (p : Promise o) (v : T) (n : ℕ)
      → (value o p).1 ≡ some v
      → (let q = polled n (value o p).0 in
          (value o q ≡ (q, some v)) × (unwrap o q ≡ some v) × (is_resolved o q ≡ true))
  unfolding value unwrap is_resolved
  value-polled p v n h =
      let here = unwrap-eq-some (value o p).0 v (unwrap-value p ∙ h) in
      let there = ap (polled n) here ∙ polled-resolved n v in
      (
        ap (value o) there ∙ ap (λ q. (q, some v)) (sym there),
        ap (unwrap o) there,
        ap (is_resolved o) there,
      )
