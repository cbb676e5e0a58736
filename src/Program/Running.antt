-- ===== src/Program/Running.antt =====
-- ptraf/src/main.rs and ptraf/src/ui.rs: what every run of the program keeps.
use ptraf.Shared.{
  ℕ, ◌≤◌, ◌<◌, ◌≡◌, refl, sym, ap, if◌then◌else◌, subst, Bool, true, false, Bool-cases, inl, inr,
  none, some, List, [], ◌∷◌, length, All, arith,
}
use ptraf.Shared.Results.{Outcome, done, ◌>>=◌}
use ptraf.Std.Bytes.{Endian}
use ptraf.Clock.{ClockNano, u64_mod, now}
use ptraf.Common.Types.{SockMsgEvent}
use ptraf.Store.Dash.{Dash}
use ptraf.Store.Segment.{Segment}
use ptraf.Store.Segment
use ptraf.Store.Series.{Store, at_back}
use ptraf.Store.Series
use ptraf.Store.Series.Invariant.{IsStore, at_back-IsStore}
use ptraf.Store.Series.Operations.{advanced, advanced-IsStore, batch_update-advanced, new-IsStore}
use ptraf.Store.Series.Newest.{newest-advanced, back-at_back}
use ptraf.Start.{Args, segment_interval, segment_count, initial_store}
use ptraf.Start.Capacity.{interval_pos, count_pos, span_fits}
use ptraf.Ui.Term.{Term}
use ptraf.Ui.App.Agreement.{Agrees, default_ui-Agrees, handle_event-Agrees}
use ptraf.Program.{
  Program, Draw, drawn, fails_first, fails_last, Selected, terminal, timeout, Turn, Status, running,
  returned, failed, Step, turn_of, batch, is_due, draw_frame, refresh, select, turn, receive, step,
  run, started,
}
use ptraf.Program.Shown.{Shows, default_ui-Shows, handle_event-Shows}
use ptraf.Program.Drawn.{Fits, advanced-Fits, IsProgram, rendered_total}

-- The time of a step on a clock fits 64 bits, and the terminal that it draws on has a column.
abbrev pub InTime : {t : Term} → ClockNano → Step t → Type 0
InTime clock (turn_of k) = (now clock k.rendered < u64_mod) × (0 < k.width)
InTime clock (batch instant ms) = now clock instant < u64_mod

module _ {d : Dash} {t : Term} (clock : ClockNano) (capacity : ℕ) where
  -- What a step ends in, without a panic.
  abbrev Ends : Outcome (Program d t × Status) → Type 0
  Ends o = (q : Program d t) × (s : Status) × (o ≡ done (q, s)) × IsProgram clock capacity q

  draw_frame_total :
      (p : Program d t) (k : Turn t) (w : Draw)
      → IsProgram clock capacity p
      → now clock k.rendered < u64_mod
      → 0 < k.width
      → (q : Program d t) × (b : Bool) × (draw_frame d t p k w ≡ done (q, b))
        × IsProgram clock capacity q
  unfolding draw_frame
  draw_frame_total p k fails_first h small wide = (p, true, refl, h)
  draw_frame_total p k fails_last h small wide =
      let (q, is, valid, clean, last) =
        rendered_total clock capacity p k.rendered k.width h small wide in
      (q, true, ap (λ o. o >>= λ r. done (r, true)) is, valid)
  draw_frame_total p k drawn h small wide =
      let (q, is, valid, clean, last) =
        rendered_total clock capacity p k.rendered k.width h small wide in
      (
        record q { last_update = k.updated },
        false,
        ap (λ o. o >>= λ r. done (record r { last_update = k.updated }, false)) is,
        record {
          clock_is = valid.clock_is;
          capacity_is = valid.capacity_is;
          store = valid.store;
          span = valid.span;
          fits = valid.fits;
          agrees = valid.agrees;
          shows = valid.shows;
        },
      )

  pub refresh_total :
      (tick_rate : ℕ) (p : Program d t) (k : Turn t)
      → IsProgram clock capacity p
      → now clock k.rendered < u64_mod
      → 0 < k.width
      → (q : Program d t) × (b : Bool) × (refresh d t tick_rate p k ≡ done (q, b))
        × IsProgram clock capacity q
  unfolding refresh
  refresh_total tick_rate p k h small wide = elim (Bool-cases (is_due d t tick_rate p k.checked)) [
    | inl due ↦ rw due (draw_frame_total p k k.draw h small wide)
    | inr idle ↦ rw idle (p, false, refl, h)
  ]

  select-IsProgram :
      (p : Program d t) (s : Selected t)
      → IsProgram clock capacity p
      → IsProgram clock capacity (select d t p s).0
  unfolding select
  select-IsProgram p timeout h = h
  select-IsProgram p (terminal none) h = h
  select-IsProgram p (terminal (some e)) h = record {
    clock_is = h.clock_is;
    capacity_is = h.capacity_is;
    store = h.store;
    span = h.span;
    fits = h.fits;
    agrees = handle_event-Agrees p.ui e h.agrees;
    shows = handle_event-Shows p.ui e h.shows;
  }

  after_refresh :
      (q : Program d t) (b : Bool) (k : Turn t)
      → IsProgram clock capacity q
      → Ends (done (if b then (q, failed) else select d t q k.selected))
  after_refresh q true k h = (q, failed, refl, h)
  after_refresh q false k h =
      ((select d t q k.selected).0, _, refl, select-IsProgram q k.selected h)

  receive_total :
      (e : Endian) (p : Program d t) (instant : ℕ) (ms : List SockMsgEvent)
      → IsProgram clock capacity p
      → now clock instant < u64_mod
      → (q : Program d t) × (receive d t e p instant ms ≡ done q) × IsProgram clock capacity q
  unfolding receive
  receive_total e p instant ms h small =
      let ts = now p.app.clock instant in
      let fit : ts < u64_mod = subst (λ c. now c instant < u64_mod) (sym h.clock_is) small in
      let full = advanced d p.app.store ts in
      let valid = advanced-IsStore d p.app.store ts h.store in
      let n = newest-advanced d p.app.store ts h.store in
      let put = λ (g : Segment d). Segment.batch_update d e g ms in
      let s : Store d = record full { segments = at_back d put full.segments } in
      (
        record p { app = record (p.app) { store = s } },
        ap (λ o. o >>= λ s. done (record p { app = record (p.app) { store = s } }))
            (batch_update-advanced d e p.app.store ts ms h.store fit),
        record {
          clock_is = h.clock_is;
          capacity_is = h.capacity_is;
          span = h.span;
          store = at_back-IsStore put full valid;
          fits =
              subst Fits (sym (back-at_back d put full.segments n.0 n.1))
                (subst Fits n.1 (advanced-Fits p.app.store ts h.store fit h.fits));
          agrees = h.agrees;
          shows = h.shows;
        },
      )

  step_total :
      (e : Endian) (tick_rate : ℕ) (p : Program d t) (s : Step t)
      → IsProgram clock capacity p
      → InTime clock s
      → Ends (step d t e tick_rate p s)
  unfolding step turn
  step_total e tick_rate p (turn_of k) h small =
      let (q, b, is, valid) = refresh_total tick_rate p k h small.0 small.1 in
      rw is (after_refresh q b k valid)
  step_total e tick_rate p (batch instant ms) h small =
      let (q, is, valid) = receive_total e p instant ms h small in rw is (q, running, refl, valid)

  run_total :
      (e : Endian) (tick_rate : ℕ) (p : Program d t) (ss : List (Step t))
      → IsProgram clock capacity p
      → All (InTime clock) ss
      → Ends (run d t e tick_rate p ss)
  unfolding run
  run_total e tick_rate p [] h small = (p, running, refl, h)
  run_total e tick_rate p (s ∷ ss) h small =
      let (q, status, is, valid) = step_total e tick_rate p s h small.0 in
      rw is (go (q, status) valid (λ v. run_total e tick_rate q ss v small.1))
    where
      go :
          (r : Program d t × Status)
          → IsProgram clock capacity r.0
          → (IsProgram clock capacity r.0 → Ends (run d t e tick_rate r.0 ss))
          → Ends (
              done r >>= λ r. elim r.1 [
                | running ↦ run d t e tick_rate r.0 ss
                | returned ↦ done r
                | failed ↦ done r
              ])
      go (q, running) h more = more h
      go (q, returned) h more = (q, returned, refl, h)
      go (q, failed) h more = (q, failed, refl, h)

pub started-IsProgram :
    (d : Dash) (t : Term) (args : Args) (clock : ClockNano) (instant : ℕ)
    → segment_interval args < u64_mod
    → IsProgram clock (segment_count args) (started d t args clock instant)
unfolding started initial_store Series.new
started-IsProgram d t args clock instant h = record {
  clock_is = refl;
  capacity_is = refl;
  store = new-IsStore d (segment_interval args) (segment_count args) (interval_pos args) h;
  span = span_fits args;
  fits = tt;
  agrees = default_ui-Agrees;
  shows = default_ui-Shows t;
}

-- With an interval whose nanoseconds fit 64 bits, instants at which the time of the clock does, and a
-- terminal that has a column whenever it is drawn on: whatever the turns of the user interface and
-- the batches are, and in whatever order, the program does not panic, and it ends with at most
-- `segment_count` segments, in consecutive windows. Its view, its table and its editor agree with its
-- filters. Its graph is set to the filter of the view, with the points in the order of time, and every
-- row of its table is of a socket that this filter names.
pub run-started :
    (d : Dash) (t : Term) (e : Endian) (args : Args) (clock : ClockNano) (instant tick_rate : ℕ)
    (ss : List (Step t))
    → segment_interval args < u64_mod
    → All (InTime clock) ss
    → (q : Program d t) × (s : Status) × (run d t e tick_rate (started d t args clock instant) ss
        ≡ done (q, s))
      × IsStore q.app.store
      × (length q.app.store.segments ≤ segment_count args)
      × Agrees q.ui
      × Shows q.ui
run-started d t e args clock instant tick_rate ss h small =
    let (q, s, is, valid) =
      run_total clock (segment_count args) e tick_rate (started d t args clock instant) ss
        (started-IsProgram d t args clock instant h) small in
    let one = count_pos args in
    let bound = valid.store.bounded in
    let capacity = valid.capacity_is in
    (q, s, is, valid.store, omega arith, valid.agrees, valid.shows)
