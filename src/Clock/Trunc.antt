-- ===== src/Clock/Trunc.antt =====
-- Truncation of a timestamp to the window that holds it.
use native.Mathlib.Nat.{mod-lt, mod-le, mod-add-div', mul-mod_left}
use ptraf.Shared.{ℕ, ◌+◌, ◌-◌, ◌*◌, ◌/◌, ◌%◌, ◌≤◌, ◌<◌, ◌≡◌, refl, ap, ◌∙◌, some, none, arith}
use ptraf.Clock.{Timestamp, trunc, u64_mod}

-- `q * w` is the largest multiple of `w` up to `n`.
sub_mod : (n w : ℕ) → n - n % w ≡ n / w * w
sub_mod n w = omega (arith, mod-add-div' n w)

pub sub_mod_bounds :
    (n w : ℕ) → 0 < w → (n - n % w ≤ n) × (n < n - n % w + w) × ((n - n % w) % w ≡ 0)
sub_mod_bounds n w h =
    (omega arith, omega (arith, mod-lt n h, mod-le n w), rw (sub_mod n w) (mul-mod_left (n / w) w))

-- A window of 0 nanoseconds is a division by zero.
pub trunc_zero : (ts : Timestamp) → trunc ts 0 ≡ none
unfolding trunc
trunc_zero ts = refl

-- The value that `trunc` returns, where the casts to `u64` change nothing.
pub trunc-eq-some :
    (ts w : ℕ) → ts < u64_mod → 0 < w → w < u64_mod → trunc ts w ≡ some (ts - ts % w)
unfolding trunc
trunc-eq-some ts w ht hw h = rw (small ts ht, small w h) (ground arith)
  where
    small : (n : ℕ) → n < u64_mod → n % u64_mod ≡ n
    small n l = omega arith

-- A truncated timestamp is the start of the window that holds the timestamp: it is a multiple of
-- the window, and the timestamp lies less than a window behind it. The timestamp and the window
-- fit 64 bits and the window is not 0.
pub trunc_window :
    (ts w t : ℕ)
    → ts < u64_mod
    → 0 < w
    → w < u64_mod
    → trunc ts w ≡ some t
    → (t % w ≡ 0) × (t ≤ ts) × (ts < t + w)
trunc_window ts w t ht hw h e = (
  rw (← same) (sub_mod_bounds ts w hw).2,
  rw (← same) (sub_mod_bounds ts w hw).0,
  rw (← same) (sub_mod_bounds ts w hw).1,
)
  where
    same : ts - ts % w ≡ t
    same = cc (trunc-eq-some ts w ht hw h)

-- Truncating again changes nothing.
pub trunc-trunc :
    (ts w t : ℕ) → ts < u64_mod → 0 < w → w < u64_mod → trunc ts w ≡ some t → trunc t w ≡ some t
trunc-trunc ts w t ht hw h e =
    let b = trunc_window ts w t ht hw h e in
    trunc-eq-some t w (omega arith) hw h ∙ ap some (omega (arith, b.0))
