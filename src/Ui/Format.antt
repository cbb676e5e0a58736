-- ===== src/Ui/Format.antt =====
-- ptraf/src/ui/format.rs: rates as texts. The floating-point numbers of Rust and the humansize crate
-- are parameters.
use ptraf.Shared.{ℕ, Option, List, [], option_map, unwrap_or}
use ptraf.Shared.Texts.{Text}

-- `f64`, as far as the user interface computes with it, and the interpolation of the interp crate.
pub record Floats : Type 1 where
  pub F : Type 0
  pub of_nat : ℕ → F
  pub add : F → F → F
  pub mul : F → F → F
  pub div : F → F → F
  pub max : F → F → F
  pub round : F → F
  pub tenth : F
  -- The casts `as u64` and `as usize`.
  pub to_nat : F → ℕ
  -- `Duration::as_secs_f64`.
  pub secs : ℕ → F
  pub interp : List F → List F → F → F
  pub format_size : ℕ → Text

module _ (fl : Floats) where
  open fl use {of_nat, div, max, round, to_nat, secs, format_size}

  -- The rate of a value over a time, in whole bytes for each second.
  unfoldable pub rate : ℕ → ℕ → ℕ
  rate val duration = to_nat (max (round (div (of_nat val) (secs duration))) (of_nat 0))

  -- `Formatter::format_rate`: nothing where there is no time.
  unfoldable pub format_rate : Option ℕ → ℕ → Text
  unfolding rate
  format_rate rate_duration val =
      unwrap_or (option_map (λ duration. format_size (rate val duration)) rate_duration) []
