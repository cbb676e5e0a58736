-- ===== src/Program/Shown.antt =====
-- ptraf/src/ui.rs: what the graph and the table of the program have to do with its filter.
use ptraf.Shared.{
  ◌≡◌, refl, sym, subst, inl, inr, true, false, Option, none, some, List, [], if_cases, All,
  Bool-cases,
}
use ptraf.Filter.Interpretor.{Interpretor}
use ptraf.Store.Socket.{match_interest}
use ptraf.Ui.Filter.{
  Filter, UiEvent, unfiltered, process, remote_ip, filter_eq, interest, set_custom_filter, change,
  quit, go_back, select_process, select_remote_ip,
}
use ptraf.Ui.Term.{Term, KeyCode}
use ptraf.Ui.SocketTable.{Entry, SocketTable, passes}
use ptraf.Ui.SocketTable
use ptraf.Ui.SocketTable.Collected.{Passes}
use ptraf.Ui.SocketTableView.{new_view}
use ptraf.Ui.Sparkline.{TrafficSparkline, default_sparkline, sparkline_with_filter}
use ptraf.Ui.Sparkline.Sorted.{Sorted, All-map}
use ptraf.Ui.Sparkline.Points.{Earlier}
use ptraf.Ui.App.{
  RootView, Ui, view_event, view_of, table_of, default_ui, update_filter, ui_event, ui_key,
  after_view, handle_event, is_char,
}
use ptraf.Ui.App.Keeping.{view_table, view_sparkline, view_event-Keeps}

-- A row whose socket is of the process or the remote address that a filter names.
abbrev pub Belongs : Filter → Entry → Type 0
Belongs f e = match_interest e.socket (interest f) ≡ true

-- The graph is set to the filter, which it collects by where there is no custom filter, and its points
-- are in the order of time; every row of the table is of a socket that the filter names.
pub record Shown (f : Filter) (s : TrafficSparkline) (rows : List Entry) : Type 0 where
  pub filter : s.filter ≡ f
  pub in_order : Sorted Earlier s.dataset
  pub buffer : s.reverse_buffer ≡ []
  pub belong : All (Belongs f) rows

module _ {t : Term} where
  abbrev pub rows : Ui t → List Entry
  rows u = (view_table u.view).socket_table.dataset

  abbrev pub Shows : Ui t → Type 0
  Shows u = Shown u.filter (view_sparkline u.view) (rows u)

  view_of-Shows :
      (u : Ui t) (f : Filter) → Shows (record u { filter = f; view = view_of t f u.custom_filter })
  unfolding view_of new_view table_of default_sparkline sparkline_with_filter SocketTable.new
  view_of-Shows u unfiltered = record { filter = refl; in_order = tt; buffer = refl; belong = tt }
  view_of-Shows u (process p) = record { filter = refl; in_order = tt; buffer = refl; belong = tt }
  view_of-Shows u (remote_ip a) = record {
    filter = refl;
    in_order = tt;
    buffer = refl;
    belong = tt;
  }

  update_filter-Shows : (u : Ui t) (f : Filter) → Shows u → Shows (update_filter t u f)
  unfolding update_filter
  update_filter-Shows u f h =
      if_cases Shows (filter_eq u.filter f) (λ _. h) (λ _. view_of-Shows u f)

  ui_key-Shows : (u : Ui t) (c : Option KeyCode) → Shows u → Shows (ui_key t u c).0
  unfolding ui_key
  ui_key-Shows u none h = h
  ui_key-Shows u (some c) h =
      if_cases (λ (r : Ui t × Option UiEvent). Shows r.0) (is_char b'q' c) (λ _. h)
        (λ _.
          if_cases (λ (r : Ui t × Option UiEvent). Shows r.0) (is_char b' ' c) (λ _. h) (λ _. h))

  ui_event-Shows : (u : Ui t) (e : UiEvent) → Shows u → Shows (ui_event t u e).0
  unfolding ui_event
  ui_event-Shows u quit h = h
  ui_event-Shows u change h = h
  ui_event-Shows u (set_custom_filter c) h = h
  ui_event-Shows u go_back h = update_filter-Shows u unfiltered h
  ui_event-Shows u (select_process p) h = update_filter-Shows u (process p) h
  ui_event-Shows u (select_remote_ip a) h = update_filter-Shows u (remote_ip a) h

  after_view-Shows :
      (u : Ui t) (code : Option KeyCode) (r : RootView t × Option UiEvent)
      → Shows (record u { view = r.0 })
      → Shows (after_view t u code r).0
  unfolding after_view
  after_view-Shows u code (v, none) h = ui_key-Shows (record u { view = v }) code h
  after_view-Shows u code (v, some e) h = ui_event-Shows (record u { view = v; dirty = true }) e h

  -- An event leaves the graph and the rows, or starts a view anew.
  pub handle_event-Shows : (u : Ui t) (e : t.Event) → Shows u → Shows (handle_event t u e).0
  unfolding handle_event
  handle_event-Shows u e h =
      let k = view_event-Keeps u.view e in
      after_view-Shows u (t.key_code e) (view_event t u.view e) (
        subst
          (λ (s : TrafficSparkline).
            Shown u.filter s (view_table (view_event t u.view e).0).socket_table.dataset)
          (sym k.1)
          (subst (λ (w : SocketTable). Shown u.filter (view_sparkline u.view) w.dataset)
            (sym k.2.table) h))

pub default_ui-Shows : (t : Term) → Shows (default_ui t)
unfolding default_ui
default_ui-Shows t = view_of-Shows (record (default_ui t) { paused = false }) unfiltered

Passes-Belongs : (f : Filter) (i : Option Interpretor) (e : Entry) → Passes f i e → Belongs f e
unfolding passes
Passes-Belongs f i e h = elim (Bool-cases (match_interest e.socket (interest f))) [
  | inl yes' ↦ yes'
  | inr no' ↦ let p = rw no' at h.0 in cc
]

pub All-Belongs :
    (f : Filter) (i : Option Interpretor) (es : List Entry)
    → All (Passes f i) es
    → All (Belongs f) es
All-Belongs f i es h = All-map (Passes f i) (Belongs f) (Passes-Belongs f i) es h
