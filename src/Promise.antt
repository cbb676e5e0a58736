-- ===== src/Promise.antt =====
-- ptraf/src/promise.rs: a value that may not be there yet. The channel that a spawned task sends
-- it through is a parameter; the spawning itself is left to the runtime.
pub mod Polling
pub mod Spawned
use ptraf.Shared.{◌≡◌, Bool, true, false, Option, none, some}

-- `tokio::sync::oneshot::Receiver`; what `try_recv` finds, and the receiver after it.
pub record Oneshot {ℓ} (T : Type ℓ) : Type (ℓ + 1) where
  pub Receiver : Type ℓ
  pub try_recv : Receiver → Receiver × Option T

-- A channel into which a task that was spawned sends its value when it has it, so that the receiver
-- finds no other value.
pub record Runtime {ℓ} (T : Type ℓ) : Type (ℓ + 1) where
  pub oneshot : Oneshot T
  pub spawn_sender : T → oneshot.Receiver
  pub Carries : oneshot.Receiver → T → Type ℓ
  pub spawned : (v : T) → Carries (spawn_sender v) v
  pub kept : (rx : oneshot.Receiver) (v : T) → Carries rx v → Carries (oneshot.try_recv rx).0 v
  pub sent :
      (rx : oneshot.Receiver) (v w : T) → Carries rx v → (oneshot.try_recv rx).1 ≡ some w → w ≡ v

pub data Promise {ℓ} {T : Type ℓ} (o : Oneshot T) : Type ℓ where
  pending : o.Receiver → Promise o
  resolved : T → Promise o

module _ {ℓ} {T : Type ℓ} (o : Oneshot T) where
  unfoldable pub is_resolved : Promise o → Bool
  is_resolved (pending rx) = false
  is_resolved (resolved v) = true

  -- `unwrap`, `unwrap_ref` and `unwrap_mut`; `none` is their panic.
  unfoldable pub unwrap : Promise o → Option T
  unwrap (pending rx) = none
  unwrap (resolved v) = some v

  abbrev received : o.Receiver × Option T → Promise o × Option T
  received (rx, none) = (pending rx, none)
  received (rx, some v) = (resolved v, some v)

  unfoldable pub value : Promise o → Promise o × Option T
  value (resolved v) = (resolved v, some v)
  value (pending rx) = received (o.try_recv rx)

-- `spawn`, `spawn_blocking` and `from`: the task, given by the value that it comes to, is left to run.
unfoldable pub spawn {ℓ} : {T : Type ℓ} (rt : Runtime T) → T → Promise rt.oneshot
spawn rt v = pending (rt.spawn_sender v)
