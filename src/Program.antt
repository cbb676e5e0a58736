-- ===== src/Program.antt =====
-- ptraf/src/main.rs and ptraf/src/ui.rs: the running program, which stores the batches of the
-- kernel's events and draws, waits and answers to the terminal in turns. The instants at which the
-- program reads the clock, what the terminal does and what ends the program come from outside. A
-- drawing and the storing of a batch are one step each.
pub mod Shown
pub mod Drawn
pub mod Running
pub mod Waiting
pub mod Terminal
mod Examples
use ptraf.Shared.{
  ℕ, ◌-◌, Bool, true, false, ◌||◌, Option, none, some, List, [], ◌∷◌, ltb, if◌then◌else◌,
}
use ptraf.Shared.Results.{Outcome, done, panicked, out_of_fuel, ◌>>=◌, Result, ok, err}
use ptraf.Std.Bytes.{Endian}
use ptraf.Clock.{ClockNano, now}
use ptraf.Common.Types.{SockMsgEvent}
use ptraf.Store.Dash.{Dash}
use ptraf.Store.Series.{Store, batch_update}
use ptraf.Start.{Args, initial_store}
use ptraf.Ui.Filter.{UiEvent}
use ptraf.Ui.Term.{Term}
use ptraf.Ui.App.{Ui, default_ui, handle_event, is_quit}
use ptraf.Ui.Drawing.{render}

pub record App (d : Dash) : Type 0 where
  pub clock : ClockNano
  pub store : Store d

-- The application, and the variables of `run_app`; an `Instant` is a number of nanoseconds.
pub record Program (d : Dash) (t : Term) : Type 0 where
  pub app : App d
  pub ui : Ui t
  pub last_update : ℕ

-- `Terminal::draw` calls the closure that renders; it may fail before or after that.
pub data Draw : Type 0 where
  drawn fails_first fails_last : Draw

-- What `tokio::select!` finds first: an event of the terminal, which is `none` if its stream has
-- ended or failed, or the timeout.
pub data Selected (t : Term) : Type 0 where
  terminal : Option t.Event → Selected t
  timeout : Selected t

-- One turn of the loop: the instants of its test, of the clock in `render`, and after the drawing;
-- and the width of the terminal.
pub record Turn (t : Term) : Type 0 where
  pub checked : ℕ
  pub rendered : ℕ
  pub updated : ℕ
  pub width : ℕ
  pub draw : Draw
  pub selected : Selected t

-- Whether `run_app` goes on, or what it has returned.
pub data Status : Type 0 where
  running returned failed : Status

-- A turn of the user interface, or a batch of events at an instant.
pub data Step (t : Term) : Type 0 where
  turn_of : Turn t → Step t
  batch : ℕ → List SockMsgEvent → Step t

module _ (d : Dash) (t : Term) where
  unfoldable pub needs_display : Ui t → Bool
  needs_display self = self.dirty

  -- The test for a drawing.
  unfoldable pub is_due : ℕ → Program d t → ℕ → Bool
  unfolding needs_display
  is_due tick_rate p checked = needs_display p.ui || ltb tick_rate (checked - p.last_update)

  -- The closure that `draw` calls.
  unfoldable pub rendered : Program d t → ℕ → ℕ → Outcome (Program d t)
  unfolding render now
  rendered p instant width =
      render d t p.ui p.app.store p.app.clock (now p.app.clock instant) width >>= λ r.
      done (record p { ui = r.0; app = record (p.app) { store = r.1 } })

  -- `terminal.draw(..)?`, and the new `last_update`; the flag says whether the terminal has failed.
  unfoldable pub draw_frame : Program d t → Turn t → Draw → Outcome (Program d t × Bool)
  unfolding rendered
  draw_frame p k fails_first = done (p, true)
  draw_frame p k fails_last = rendered p k.rendered k.width >>= λ q. done (q, true)
  draw_frame p k drawn =
      rendered p k.rendered k.width >>= λ q. done (record q { last_update = k.updated }, false)

  unfoldable pub refresh : ℕ → Program d t → Turn t → Outcome (Program d t × Bool)
  unfolding is_due draw_frame
  refresh tick_rate p k =
      if is_due tick_rate p k.checked then draw_frame p k k.draw else done (p, false)

  -- How long the loop waits for an event, at an instant.
  unfoldable pub timeout_after : ℕ → Program d t → ℕ → ℕ
  timeout_after tick_rate p instant = tick_rate - (instant - p.last_update)

  unfoldable pub select : Program d t → Selected t → Program d t × Status
  unfolding handle_event
  select p (terminal (some event)) =
      let r = handle_event t p.ui event in
      (record p { ui = r.0 }, if is_quit r.1 then returned else running)
  select p (terminal none) = (p, running)
  select p timeout = (p, running)

  -- The body of the loop of `run_app`.
  unfoldable pub turn : ℕ → Program d t → Turn t → Outcome (Program d t × Status)
  unfolding refresh select
  turn tick_rate p k =
      refresh tick_rate p k >>= λ r. done (if r.1 then (r.0, failed) else select r.0 k.selected)

  -- The closure that `main` hands to `events`.
  unfoldable pub receive : Endian → Program d t → ℕ → List SockMsgEvent → Outcome (Program d t)
  unfolding batch_update now
  receive e p instant events =
      batch_update d e p.app.store (now p.app.clock instant) events >>= λ s.
      done (record p { app = record (p.app) { store = s } })

  unfoldable pub step : Endian → ℕ → Program d t → Step t → Outcome (Program d t × Status)
  unfolding turn receive
  step e tick_rate p (turn_of k) = turn tick_rate p k
  step e tick_rate p (batch instant events) = receive e p instant events >>= λ q. done (q, running)

  -- The program goes on until its user interface returns.
  unfoldable pub run : Endian → ℕ → Program d t → List (Step t) → Outcome (Program d t × Status)
  unfolding step
  run e tick_rate p [] = done (p, running)
  run e tick_rate p (s ∷ rest) = step e tick_rate p s >>= λ r. elim r.1 [
    | running ↦ run e tick_rate r.0 rest
    | returned ↦ done r
    | failed ↦ done r
  ]

  -- The program as `main` starts it, at an instant.
  unfoldable pub started : Args → ClockNano → ℕ → Program d t
  unfolding initial_store default_ui
  started args clock instant = record {
    app = record { clock = clock; store = initial_store d args };
    ui = default_ui t;
    last_update = instant;
  }
