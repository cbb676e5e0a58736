-- ===== src/Ui/RemoteIpDetails/Examples.antt =====
-- The theorem on the view of an address, with a look-up that takes three drawings.
use ptraf.Shared.{ℕ, zero, suc, ◌+◌, ◌≡◌, refl, sym, ap, ◌∙◌, ◌⊎◌, Option, none, some, unwrap_or}
use ptraf.Shared.Results.{Result, ok}
use ptraf.Shared.Texts.{Text, codes}
use ptraf.Std.Ip.{IpAddr}
use ptraf.Std.Ip
use ptraf.Promise.{Oneshot, Runtime}
use ptraf.Ui.RemoteIpDetails.{host_name, resolving, new}
use ptraf.Ui.RemoteIpDetails.Shown.{shown, shown-new}

-- A receiver that finds its value after so many questions.
abbrev counted : ℕ → Text → (ℕ × Text) × Option Text
counted zero v = ((0, v), some v)
counted (suc n) v = ((n, v), none)

abbrev countdown : Oneshot Text
countdown = record { Receiver = ℕ × Text; try_recv = λ rx. counted rx.0 rx.1 }

counted_kept : (n : ℕ) (v w : Text) → v ≡ w → (counted n v).0.1 ≡ w
counted_kept zero v w h = h
counted_kept (suc n) v w h = h

counted_sent : (n : ℕ) (u v w : Text) → u ≡ v → (counted n u).1 ≡ some w → w ≡ v
counted_sent zero u v w h k = sym (ap (λ o. unwrap_or o u) k) ∙ h
counted_sent (suc n) u v w h k = cc

abbrev runtime : Runtime Text
runtime = record {
  oneshot = countdown;
  spawn_sender = λ v. (3, v);
  Carries = λ rx v. rx.1 ≡ v;
  spawned = λ v. refl;
  kept = λ rx v h. counted_kept rx.0 rx.1 v h;
  sent = λ rx v w h k. counted_sent rx.0 rx.1 v w h k;
}

abbrev lookup : IpAddr → Result Text Text
lookup ip = ok (codes "localhost")

shown-new_example :
    (let self = new runtime lookup (Ip.v4 2130706433) in
      (shown runtime 3 self ≡ resolving)
      ⊎ ((shown runtime 3 self ≡ host_name (ok (codes "localhost")))
          × (shown runtime (3 + 2) self ≡ host_name (ok (codes "localhost")))))
shown-new_example = shown-new runtime lookup (Ip.v4 2130706433) 3 2
