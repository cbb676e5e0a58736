-- ===== src/Program/Waiting.antt =====
-- ptraf/src/ui.rs, `run_app`: what the loop has drawn when it waits for an event.
use ptraf.Shared.{ℕ, ◌+◌, ◌≤◌, ◌<◌, max, ◌≡◌, refl, ap, false, Bool-cases, inl, inr, arith}
use ptraf.Shared.Results.{done, ◌>>=◌}
use ptraf.Clock.{ClockNano, u64_mod, now}
use ptraf.Store.Dash.{Dash}
use ptraf.Ui.Term.{Term}
use ptraf.Program.{Program, drawn, Turn, is_due, needs_display, draw_frame, refresh, timeout_after}
use ptraf.Program.Drawn.{IsProgram, rendered_total}

module _ {d : Dash} {t : Term} where
  idle :
      (tick_rate : ℕ) (p : Program d t) (checked : ℕ)
      → is_due d t tick_rate p checked ≡ false
      → (p.ui.dirty ≡ false) × (checked ≤ p.last_update + tick_rate)
  unfolding is_due needs_display
  idle tick_rate p checked h = ground arith

  timeout_bound :
      (tick_rate : ℕ) (p : Program d t) (instant : ℕ)
      → p.last_update ≤ instant
      → instant + timeout_after d t tick_rate p instant ≡ max instant (p.last_update + tick_rate)
  unfolding timeout_after
  timeout_bound tick_rate p instant h = omega arith

  -- For a program with its invariant, a terminal that has a column and does not fail, and instants in
  -- their order that the clock can count in 64 bits: when the loop goes on to wait, nothing asks
  -- for a drawing, the last one was at most `tick_rate` before the test of this turn or came after
  -- it, and the wait ends as soon as `tick_rate` has passed since the last drawing.
  pub refresh_waits :
      (clock : ClockNano) (capacity tick_rate : ℕ) (p : Program d t) (k : Turn t) (instant : ℕ)
      → IsProgram clock capacity p
      → now clock k.rendered < u64_mod
      → 0 < k.width
      → k.draw ≡ drawn
      → k.checked ≤ k.updated
      → k.updated ≤ instant
      → p.last_update ≤ instant
      → (q : Program d t) × (refresh d t tick_rate p k ≡ done (q, false))
        × (q.ui.dirty ≡ false)
        × (k.checked ≤ q.last_update + tick_rate)
        × (instant + timeout_after d t tick_rate q instant
            ≡ max instant (q.last_update + tick_rate))
  unfolding refresh draw_frame
  refresh_waits clock capacity tick_rate p k instant h small wide works first second before =
      elim (Bool-cases (is_due d t tick_rate p k.checked)) [
        | inl due ↦
            let (q, is, valid, clean, last) =
              rendered_total clock capacity p k.rendered k.width h small wide in
            let r : Program d t = record q { last_update = k.updated } in
            rw (due, works)
              (
                r,
                ap (λ o. o >>= λ x. done (record x { last_update = k.updated }, false)) is,
                clean,
                omega arith,
                timeout_bound tick_rate r instant second,
              )
        | inr rests ↦
            let (clean, recent) = idle tick_rate p k.checked rests in
            rw rests (p, refl, clean, recent, timeout_bound tick_rate p instant before)
      ]
