-- ===== src/Promise/Spawned.antt =====
-- ptraf/src/promise.rs: the promise of a task that was spawned.
use ptraf.Shared.{◌≡◌, refl, ap, ◌⊎◌, inl, inr, Option, none, some}
use ptraf.Promise.{Runtime, Promise, pending, resolved, received, value}

module _ {T : Type 0} (rt : Runtime T) (v : T) where
  -- A promise of the value: its channel carries it, or it has come.
  abbrev pub Promises : Promise rt.oneshot → Type 0
  Promises (pending rx) = rt.Carries rx v
  Promises (resolved w) = w ≡ v

  abbrev pub Answers : Promise rt.oneshot × Option T → Type 0
  Answers r = ((r.1 ≡ none) × Promises r.0) ⊎ ((r.1 ≡ some v) × (r.0 ≡ resolved v))

  received-Answers :
      (rx : rt.oneshot.Receiver × Option T)
      → rt.Carries rx.0 v
      → ((w : T) → rx.1 ≡ some w → w ≡ v)
      → Answers (received rt.oneshot rx)
  received-Answers (rx, none) h k = inl (refl, h)
  received-Answers (rx, some w) h k = let e = k w refl in inr (ap some e, ap resolved e)

  pub value-Answers : (p : Promise rt.oneshot) → Promises p → Answers (value rt.oneshot p)
  unfolding value
  value-Answers (pending rx) h =
      received-Answers (rt.oneshot.try_recv rx) (rt.kept rx v h) (λ w e. rt.sent rx v w h e)
  value-Answers (resolved w) h = inr (ap some h, ap resolved h)
