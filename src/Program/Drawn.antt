-- ===== src/Program/Drawn.antt =====
-- ptraf/src/ui.rs, `Ui::render` and the drawing of `run_app`: what they keep of the program.
use native.Mathlib.Nat.{div-le_self}
use ptraf.Shared.{
  ℕ, ◌+◌, ◌-◌, ◌*◌, ◌/◌, ◌%◌, ◌<◌, ◌≡◌, refl, sym, ap, ◌∙◌, subst, Bool, true, false, Option, none,
  some, option_map, All, back, arith,
}
use ptraf.Shared.Results.{done, ◌>>=◌}
use ptraf.Clock.{Timestamp, ClockNano, u64_mod, duration_limit, now}
use ptraf.Store.Dash.{Dash}
use ptraf.Store.Series.{Store, TimeSegment}
use ptraf.Store.Series.Invariant.{IsStore}
use ptraf.Store.Series.Operations.{advanced, window_of}
use ptraf.Store.Series.Newest.{latest, newest-advanced}
use ptraf.Ui.Filter.{CustomFilter}
use ptraf.Ui.Term.{Term}
use ptraf.Ui.FilterEditor.{FilterView, interpretor}
use ptraf.Ui.FilterEditor.Editing.{IsEditor}
use ptraf.Ui.SocketTableView.{SocketTableView}
use ptraf.Ui.Sparkline.{TrafficSparkline, collect_points, output_interval}
use ptraf.Ui.Sparkline.Sorted.{Sorted}
use ptraf.Ui.Sparkline.Points.{Earlier}
use ptraf.Ui.Sparkline.Ordered.{collect_points-Sorted}
use ptraf.Ui.App.{Ui}
use ptraf.Ui.App.Agreement.{Agrees}
use ptraf.Ui.App.Keeping.{view_table, view_sparkline, view_filter}
use ptraf.Ui.Drawing.Keeping.{Drawn, HasInterval, render_total}
use ptraf.Program.{Program, App, rendered}
use ptraf.Program.Shown.{Belongs, Shows, rows, All-Belongs}

-- The time that a store can hold, as the graph computes it, is a `Duration`.
abbrev pub Spans : {d : Dash} → Store d → Type 0
Spans s = s.window * ((s.capacity + (u64_mod - 1)) % u64_mod) < duration_limit

module _ {d : Dash} where
  -- So the graph has an interval on every frame that has a column.
  interval : (s : Store d) (width : ℕ) → Spans s → 0 < width → HasInterval s width
  unfolding output_interval
  interval s width h wide =
      let span = s.window * ((s.capacity + (u64_mod - 1)) % u64_mod) in
      let below = div-le_self span width in (span / width, ground arith)

  abbrev pub Fits : Option (TimeSegment d) → Type 0
  Fits none = Unit {0}
  Fits (some s) = s.ts < u64_mod

  pub latest-lt :
      (s : Store d) (ts : Timestamp)
      → ts < u64_mod
      → Fits (back s.segments)
      → latest d (window_of d s ts) (back s.segments) < u64_mod
  latest-lt s ts h f = go (back s.segments) f
    where
      go : (o : Option (TimeSegment d)) → Fits o → latest d (window_of d s ts) o < u64_mod
      go none f = omega arith
      go (some x) f = omega arith

  pub advanced-Fits :
      (s : Store d) (ts : Timestamp)
      → IsStore s
      → ts < u64_mod
      → Fits (back s.segments)
      → Fits (back (advanced d s ts).segments)
  advanced-Fits s ts v h f =
      let n = newest-advanced d s ts v in
      let small = latest-lt s ts h f in
      subst Fits (sym n.1) (subst (λ k. k < u64_mod) (sym n.2) small)

module _ {t : Term} where
  Drawn-filter :
      (b : Bool) (v w : SocketTableView t)
      → Drawn t b v w
      → w.socket_table.filter ≡ v.socket_table.filter
  Drawn-filter true v w h = ap (λ (x : SocketTableView t). x.socket_table.filter) h
  Drawn-filter false v w h = h.1

  Drawn-editor :
      (b : Bool) (v w : SocketTableView t) → Drawn t b v w → w.filter_view ≡ v.filter_view
  Drawn-editor true v w h = ap (λ (x : SocketTableView t). x.filter_view) h
  Drawn-editor false v w h = h.0

  Drawn-Belongs :
      (b : Bool) (v w : SocketTableView t)
      → Drawn t b v w
      → All (Belongs v.socket_table.filter) v.socket_table.dataset
      → All (Belongs v.socket_table.filter) w.socket_table.dataset
  Drawn-Belongs true v w h k =
      subst (λ (x : SocketTableView t). All (Belongs v.socket_table.filter) x.socket_table.dataset)
        (sym h) k
  Drawn-Belongs false v w h k =
      All-Belongs v.socket_table.filter (interpretor t v.filter_view) w.socket_table.dataset h.3

  module _ (u w : Ui t) (same : w.filter ≡ u.filter) where
    render-Agrees :
        (custom : w.custom_filter ≡ u.custom_filter) (b : Bool)
        → view_filter w.view ≡ view_filter u.view
        → Drawn t b (view_table u.view) (view_table w.view)
        → Agrees u
        → Agrees w
    render-Agrees custom b view k h =
        let editor = Drawn-editor b (view_table u.view) (view_table w.view) k in
        record {
          view = view ∙ h.view ∙ sym same;
          table = Drawn-filter b (view_table u.view) (view_table w.view) k ∙ h.table ∙ sym same;
          custom = ap (λ (f : FilterView t). f.committed_state) editor ∙ h.custom ∙ sym custom;
          editor = subst IsEditor (sym editor) h.editor;
        }

module _ {d : Dash} {t : Term} where
  -- The store has its invariant, its capacity, a span that a `Duration` can be and a newest segment whose time fits 64 bits; the
  -- view, the table and the editor agree with the filters of the program; the points and the rows
  -- that are shown are those of its filter.
  pub record IsProgram (clock : ClockNano) (capacity : ℕ) (p : Program d t) : Type 0 where
    pub clock_is : p.app.clock ≡ clock
    pub capacity_is : p.app.store.capacity ≡ capacity
    pub store : IsStore p.app.store
    pub span : Spans p.app.store
    pub fits : Fits (back p.app.store.segments)
    pub agrees : Agrees p.ui
    pub shows : Shows p.ui

  module _ (u w : Ui t) (same : w.filter ≡ u.filter) where
    render-Shows :
        (store : Store d) (custom : Option CustomFilter) (b : Bool)
        → IsStore store
        → view_sparkline w.view
          ≡ collect_points d
              (view_sparkline u.view)
              store
              (option_map (λ (f : CustomFilter). f.interpretor) custom)
        → Drawn t b (view_table u.view) (view_table w.view)
        → Agrees u
        → Shows u
        → Shows w
    unfolding collect_points
    render-Shows store custom b v points k a h =
        let i = option_map (λ (f : CustomFilter). f.interpretor) custom in
        let sorted =
          collect_points-Sorted d (view_sparkline u.view) store i v h.in_order h.buffer in
        record {
          filter = ap (λ (s : TrafficSparkline). s.filter) points ∙ h.filter ∙ sym same;
          in_order =
              subst (λ (s : TrafficSparkline). Sorted Earlier s.dataset) (sym points) sorted.0;
          buffer = ap (λ (s : TrafficSparkline). s.reverse_buffer) points ∙ sorted.2;
          belong =
              subst (λ f. All (Belongs f) (rows w)) (a.table ∙ sym same)
                (Drawn-Belongs b (view_table u.view) (view_table w.view) k
                  (subst (λ f. All (Belongs f) (rows u)) (sym a.table) h.belong));
        }

  -- A drawing of a program with its invariant ends without a panic and keeps the invariant. It
  -- clears the mark that asks for a drawing, and does not touch the time of the last one.
  pub rendered_total :
      (clock : ClockNano) (capacity : ℕ) (p : Program d t) (instant width : ℕ)
      → IsProgram clock capacity p
      → now clock instant < u64_mod
      → 0 < width
      → (q : Program d t) × (rendered d t p instant width ≡ done q)
        × IsProgram clock capacity q
        × (q.ui.dirty ≡ false)
        × (q.last_update ≡ p.last_update)
  unfolding rendered
  rendered_total clock capacity p instant width h small wide =
      let ts = now p.app.clock instant in
      let fit : ts < u64_mod = subst (λ c. now c instant < u64_mod) (sym h.clock_is) small in
      let (ui, is, valid, dirty, filter, custom, paused, view, points, drawn) =
        render_total d t p.ui p.app.store p.app.clock ts width h.store
          (interval p.app.store width h.span wide) fit (latest-lt p.app.store ts fit h.fits) in
      let app : App d = record (p.app) { store = advanced d p.app.store ts } in
      (
        record p { ui = ui; app = app },
        ap (λ o. o >>= λ r. done (record p { ui = r.0; app = record (p.app) { store = r.1 } })) is,
        record {
          clock_is = h.clock_is;
          capacity_is = h.capacity_is;
          store = valid;
          span = h.span;
          fits = advanced-Fits p.app.store ts h.store fit h.fits;
          agrees = render-Agrees p.ui ui filter custom p.ui.paused view drawn h.agrees;
          shows =
              render-Shows p.ui ui filter (advanced d p.app.store ts) p.ui.custom_filter p.ui.paused
                valid points drawn h.agrees h.shows;
        },
        dirty,
        refl,
      )
