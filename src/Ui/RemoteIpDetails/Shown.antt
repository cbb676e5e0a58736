-- ===== src/Ui/RemoteIpDetails/Shown.antt =====
-- ptraf/src/ui/remote_ip_details.rs: what the view of an address shows from one drawing to the next.
use ptraf.Shared.{
  ℕ, zero, suc, ◌+◌, ◌≡◌, refl, sym, ap, ◌∙◌, subst, ◌⊎◌, inl, inr, unwrap_or, arith,
}
use ptraf.Shared.Results.{Result}
use ptraf.Shared.Texts.{Text}
use ptraf.Std.Ip.{IpAddr}
use ptraf.Promise.{Runtime, resolved, value, spawn}
use ptraf.Promise.Spawned.{Promises, Answers, value-Answers}
use ptraf.Ui.RemoteIpDetails.{RemoteIpDetailsView, host_name, resolving, new, render}

module _ (rt : Runtime Text) where
  -- The view after so many drawings, and what the next one shows.
  unfoldable pub drawn : ℕ → RemoteIpDetailsView rt → RemoteIpDetailsView rt
  drawn zero self = self
  drawn (suc n) self = drawn n (render rt self).0

  abbrev pub shown : ℕ → RemoteIpDetailsView rt → Text
  shown n self = (render rt (drawn n self)).1

  drawn-add :
      (n m : ℕ) (self : RemoteIpDetailsView rt) → drawn (n + m) self ≡ drawn m (drawn n self)
  unfolding drawn
  drawn-add zero m self = let e : 0 + m ≡ m = omega arith in ap (λ k. drawn k self) e
  drawn-add (suc n) m self = ap (λ k. drawn k self) (suc-add n m) ∙ drawn-add n m (render rt self).0
    where
      suc-add : (n m : ℕ) → suc n + m ≡ suc (n + m)
      suc-add n m = omega arith

  module _ (v : Text) where
    Comes : RemoteIpDetailsView rt → Type 0
    Comes self = Answers rt v (value rt.oneshot self.hostname)

    drawn-Promises :
        (n : ℕ) (self : RemoteIpDetailsView rt)
        → Promises rt v self.hostname
        → Promises rt v (drawn n self).hostname
    unfolding drawn render
    drawn-Promises zero self h = h
    drawn-Promises (suc n) self h =
        drawn-Promises n (render rt self).0 (next (value-Answers rt v self.hostname h))
      where
        next :
            Answers rt v (value rt.oneshot self.hostname)
            → Promises rt v (value rt.oneshot self.hostname).0
        next (inl (none', h)) = h
        next (inr (some', e)) = subst (Promises rt v) (sym e) refl

    shown-resolved :
        (n : ℕ) (self : RemoteIpDetailsView rt) → self.hostname ≡ resolved v → shown n self ≡ v
    unfolding drawn render value
    shown-resolved zero self h = ap (λ p. unwrap_or (value rt.oneshot p).1 resolving) h
    shown-resolved (suc n) self h =
        shown-resolved n (render rt self).0 (ap (λ p. (value rt.oneshot p).0) h)

    shown-Answers :
        (m : ℕ) (self : RemoteIpDetailsView rt)
        → Answers rt v (value rt.oneshot self.hostname)
        → (shown 0 self ≡ resolving) ⊎ ((shown 0 self ≡ v) × (shown m self ≡ v))
    unfolding drawn render
    shown-Answers m self (inl (none', h)) = inl (ap (λ o. unwrap_or o resolving) none')
    shown-Answers zero self (inr (some', e)) =
        let now = ap (λ o. unwrap_or o resolving) some' in inr (now, now)
    shown-Answers (suc m) self (inr (some', e)) =
        inr (ap (λ o. unwrap_or o resolving) some', shown-resolved m (render rt self).0 e)

  -- Every drawing of the view of an address shows that the name of its host is being looked up, or
  -- what the look-up has come to; and once a drawing has shown that, every later one does.
  pub shown-new :
      (lookup_addr : IpAddr → Result Text Text) (ip : IpAddr) (n m : ℕ)
      → (let self = new rt lookup_addr ip in
          (shown n self ≡ resolving)
          ⊎ ((shown n self ≡ host_name (lookup_addr ip))
              × (shown (n + m) self ≡ host_name (lookup_addr ip))))
  unfolding new spawn drawn
  shown-new lookup_addr ip n m =
      let self = new rt lookup_addr ip in
      let v = host_name (lookup_addr ip) in
      let p = drawn-Promises v n self (rt.spawned v) in
      later (shown-Answers v m (drawn n self) (value-Answers rt v (drawn n self).hostname p))
    where
      later :
          {v : Text}
          → ((shown n (new rt lookup_addr ip) ≡ resolving)
              ⊎ ((shown n (new rt lookup_addr ip) ≡ v)
                  × (shown m (drawn n (new rt lookup_addr ip)) ≡ v)))
          → (shown n (new rt lookup_addr ip) ≡ resolving)
            ⊎ ((shown n (new rt lookup_addr ip) ≡ v) × (shown (n + m) (new rt lookup_addr ip) ≡ v))
      later (inl h) = inl h
      later (inr (h, k)) =
          inr (h, ap (λ s. (render rt s).1) (drawn-add n m (new rt lookup_addr ip)) ∙ k)
