-- ===== src/Program/Examples.antt =====
-- The theorems on the running program, with its default options.
use ptraf.Shared.{◌+◌, ◌≤◌, max, ◌≡◌, refl, false, some, List, [], ◌∷◌, length, arith}
use ptraf.Shared.Results.{done}
use ptraf.Std.Bytes.{little}
use ptraf.Clock.{ClockNano, now}
use ptraf.Store.Dash.{simple_dash}
use ptraf.Store.Series.Invariant.{IsStore}
use ptraf.Store.Examples.{received, sent}
use ptraf.Start.{default_args, segment_interval, segment_count}
use ptraf.Ui.Term.{simple_term, KeyCode, Input, Key}
use ptraf.Ui.App.Agreement.{Agrees}
use ptraf.Program.{
  Program, drawn, Turn, terminal, timeout, Status, Step, turn_of, batch, refresh, timeout_after,
  run, started,
}
use ptraf.Program.Shown.{Shows}
use ptraf.Program.Running.{run-started, started-IsProgram}
use ptraf.Program.Waiting.{refresh_waits}
use ptraf.Shared.{ℕ, Bool, true}
use ptraf.Shared.Results.{err}
use ptraf.Program.Terminal.{Call, show_cursor, RunsUi, run_ui, run_ui-RunsUi}

abbrev clock : ClockNano
clock = record { start = 1000; wall_time = 0 }

abbrev press_down : KeyCode × Input
press_down = (KeyCode.down, record { key = Key.other_key 1; ctrl = false })

abbrev first : Turn simple_term
first = record {
  checked = 2000;
  rendered = 3000;
  updated = 4000;
  width = 80;
  draw = drawn;
  selected = terminal (some press_down);
}

-- A drawing and a key, a batch, a drawing with a timeout, and a batch that fills further windows.
abbrev steps : List (Step simple_term)
steps =
    turn_of first
    ∷ batch 5000 (received ∷ sent ∷ [])
    ∷ turn_of (record first { checked = 6000; rendered = 300000000; selected = timeout })
    ∷ batch 900000000 (sent ∷ [])
    ∷ []

run-started_example :
    (q : Program simple_dash simple_term) × (s : Status) × (run simple_dash simple_term little 500
        (started simple_dash simple_term default_args clock 1000)
        steps
      ≡ done (q, s))
    × IsStore q.app.store
    × (length q.app.store.segments ≤ segment_count default_args)
    × Agrees q.ui
    × Shows q.ui
unfolding segment_interval default_args now
run-started_example =
    run-started simple_dash simple_term little default_args clock 1000 500 steps (omega arith)
      ((omega arith, omega arith), (omega arith, ((omega arith, omega arith), (omega arith, tt))))

refresh_waits_example :
    (q : Program simple_dash simple_term) × (refresh simple_dash simple_term 500
        (started simple_dash simple_term default_args clock 1000)
        first
      ≡ done (q, false))
    × (q.ui.dirty ≡ false)
    × (2000 ≤ q.last_update + 500)
    × (4100 + timeout_after simple_dash simple_term 500 q 4100 ≡ max 4100 (q.last_update + 500))
unfolding segment_interval default_args started now
refresh_waits_example =
    refresh_waits clock (segment_count default_args) 500
      (started simple_dash simple_term default_args clock 1000) first 4100
      (started-IsProgram simple_dash simple_term default_args clock 1000 (omega arith))
      (omega arith) (omega arith) refl (omega arith) (omega arith) (omega arith)

-- The third call that restores the terminal fails, after a loop that has returned an error.
abbrev fails : Call → Bool
fails show_cursor = true
fails _ = false

abbrev code : Call → ℕ
code c = 7

run_ui-RunsUi_example : RunsUi fails code (err 3) (run_ui fails code (err 3))
run_ui-RunsUi_example = run_ui-RunsUi fails code (err 3)
