-- ===== src/Ui/App.antt =====
-- ptraf/src/ui.rs: the views of the program and what they do with events. The details that a view
-- shows of its process or address are read from the system when it is drawn, and are left out; so
-- is the footer, which has no state.
pub mod Keeping
pub mod Quitting
pub mod Refused
pub mod Agreement
use ptraf.Shared.{
  ℕ, ◌≡◌, Bool, true, false, not, Option, none, some, List, [], ◌∷◌, ◌==◌, if◌then◌else◌,
  option_map,
}
use ptraf.Std.Ip.{IpAddr}
use ptraf.Ui.Filter.{
  Filter, CustomFilter, UiEvent, unfiltered, process, remote_ip, filter_eq, quit, change, go_back,
  select_process, select_remote_ip, set_custom_filter,
}
use ptraf.Ui.Term.{Term, KeyCode, enter, backspace}
use ptraf.Ui.FilterEditor
use ptraf.Ui.SocketTable.{Entry, SocketTable, default_config}
use ptraf.Ui.SocketTable
use ptraf.Ui.SocketTableView.{SocketTableView, new_view, down, up, selected_entry, selected_pid}
use ptraf.Ui.SocketTableView
use ptraf.Ui.Sparkline.{TrafficSparkline, default_sparkline, sparkline_with_filter}

pub record MainView (t : Term) : Type 0 where
  pub traffic_sparkline_view : TrafficSparkline
  pub sock_table_view : SocketTableView t

pub record RemoteIpView (t : Term) : Type 0 where
  pub ip : IpAddr
  pub traffic_sparkline_view : TrafficSparkline
  pub sock_table_view : SocketTableView t

pub record ProcessView (t : Term) : Type 0 where
  pub pid : ℕ
  pub traffic_sparkline_view : TrafficSparkline
  pub sock_table_view : SocketTableView t

pub data RootView (t : Term) : Type 0 where
  main_view : MainView t → RootView t
  process_view : ProcessView t → RootView t
  remote_ip_view : RemoteIpView t → RootView t

pub record Ui (t : Term) : Type 0 where
  pub paused : Bool
  pub dirty : Bool
  pub filter : Filter
  pub custom_filter : Option CustomFilter
  pub view : RootView t

abbrev pub is_up : KeyCode → Bool
is_up KeyCode.up = true
is_up (KeyCode.char c) = c == b'k'
is_up _ = false

abbrev pub is_down : KeyCode → Bool
is_down KeyCode.down = true
is_down (KeyCode.char c) = c == b'j'
is_down _ = false

abbrev pub is_char : ℕ → KeyCode → Bool
is_char c (KeyCode.char d) = d == c
is_char c _ = false

-- `KeyCode::Char('p') | KeyCode::Enter`.
abbrev pub is_process : KeyCode → Bool
is_process enter = true
is_process (KeyCode.char c) = c == b'p'
is_process _ = false

-- `KeyCode::Char('q') | KeyCode::Backspace`.
abbrev pub is_back : KeyCode → Bool
is_back backspace = true
is_back (KeyCode.char c) = c == b'q'
is_back _ = false

abbrev pub is_quit : Option UiEvent → Bool
is_quit (some quit) = true
is_quit _ = false

module _ (t : Term) where
  abbrev Table : Type 0
  Table = SocketTableView t

  unfoldable pub select_process_of : Table → Option UiEvent
  unfolding selected_pid
  select_process_of v = option_map select_process (selected_pid t v)

  unfoldable pub select_ip_of : Table → Option UiEvent
  unfolding selected_entry
  select_ip_of v =
      option_map (λ (e : Entry). select_remote_ip e.socket.remote.ip) (selected_entry t v)

  -- The keys of each view, once the table has left an event to it.
  unfoldable pub main_key : Table → KeyCode → Table × Option UiEvent
  unfolding up down select_process_of select_ip_of
  main_key v c =
      if is_up c
      then (up t v, some change)
      else if is_down c
      then (down t v, some change)
      else if is_process c
      then (v, select_process_of v)
      else if is_char b'r' c
      then (v, select_ip_of v)
      else (v, none)

  unfoldable pub remote_ip_key : Table → KeyCode → Table × Option UiEvent
  unfolding up down select_process_of
  remote_ip_key v c =
      if is_back c
      then (v, some go_back)
      else if is_up c
      then (up t v, some change)
      else if is_down c
      then (down t v, some change)
      else if is_process c
      then (v, select_process_of v)
      else (v, none)

  unfoldable pub process_key : Table → KeyCode → Table × Option UiEvent
  unfolding up down select_ip_of
  process_key v c =
      if is_back c
      then (v, some go_back)
      else if is_up c
      then (up t v, some change)
      else if is_down c
      then (down t v, some change)
      else if is_char b'r' c
      then (v, select_ip_of v)
      else (v, none)

  -- An event goes to the table first, and to the keys of the view if the table has no answer.
  unfoldable pub or_keys :
      (Table → KeyCode → Table × Option UiEvent)
      → Option KeyCode
      → Table × Option UiEvent
      → Table × Option UiEvent
  or_keys keys code (v, some e) = (v, some e)
  or_keys keys none (v, none) = (v, none)
  or_keys keys (some c) (v, none) = keys v c

  unfoldable pub table_event :
      (Table → KeyCode → Table × Option UiEvent) → Table → t.Event → Table × Option UiEvent
  unfolding or_keys SocketTableView.handle_event
  table_event keys v event =
      or_keys keys (t.key_code event) (SocketTableView.handle_event t v event)

  -- `RootView::handle_event`, with the handlers of the three views.
  unfoldable pub view_event : RootView t → t.Event → RootView t × Option UiEvent
  unfolding table_event main_key remote_ip_key process_key
  view_event (main_view v) event =
      let r = table_event main_key v.sock_table_view event in
      (main_view (record v { sock_table_view = r.0 }), r.1)
  view_event (process_view v) event =
      let r = table_event process_key v.sock_table_view event in
      (process_view (record v { sock_table_view = r.0 }), r.1)
  view_event (remote_ip_view v) event =
      let r = table_event remote_ip_key v.sock_table_view event in
      (remote_ip_view (record v { sock_table_view = r.0 }), r.1)

  unfoldable pub table_of : Filter → SocketTable
  unfolding SocketTable.new SocketTable.with_filter default_config
  table_of filter = SocketTable.new (SocketTable.with_filter default_config filter)

  -- `Ui::update_view`, with `MainView::new`, `ProcessView::new` and `RemoteIpView::new`.
  unfoldable pub view_of : Filter → Option CustomFilter → RootView t
  unfolding new_view SocketTable.new default_config table_of default_sparkline sparkline_with_filter
  view_of unfiltered custom = main_view (record {
    traffic_sparkline_view = default_sparkline;
    sock_table_view = new_view t (SocketTable.new default_config) custom;
  })
  view_of (process pid) custom = process_view (record {
    pid = pid;
    traffic_sparkline_view = sparkline_with_filter (process pid);
    sock_table_view = new_view t (table_of (process pid)) custom;
  })
  view_of (remote_ip ip) custom = remote_ip_view (record {
    ip = ip;
    traffic_sparkline_view = sparkline_with_filter (remote_ip ip);
    sock_table_view = new_view t (table_of (remote_ip ip)) custom;
  })

  -- `Ui::default`; the default view of a table is a new one without a custom filter.
  unfoldable pub default_ui : Ui t
  unfolding view_of
  default_ui = record {
    paused = false;
    dirty = true;
    filter = unfiltered;
    custom_filter = none;
    view = view_of unfiltered none;
  }

  unfoldable pub update_filter : Ui t → Filter → Ui t
  unfolding view_of
  update_filter self filter =
      if filter_eq self.filter filter
      then self
      else record self { filter = filter; view = view_of filter self.custom_filter }

  -- What the user interface does with the event that its view answers.
  unfoldable pub ui_event : Ui t → UiEvent → Ui t × Option UiEvent
  unfolding update_filter
  ui_event self (select_remote_ip ip) = (update_filter self (remote_ip ip), none)
  ui_event self (select_process pid) = (update_filter self (process pid), none)
  ui_event self go_back = (update_filter self unfiltered, none)
  ui_event self (set_custom_filter filter) = (record self { custom_filter = filter }, none)
  ui_event self quit = (self, some quit)
  ui_event self change = (self, some change)

  -- The keys that no view has an answer to.
  unfoldable pub ui_key : Ui t → Option KeyCode → Ui t × Option UiEvent
  ui_key self none = (self, none)
  ui_key self (some c) =
      if is_char b'q' c
      then (self, some quit)
      else if is_char b' ' c
      then (record self { dirty = true; paused = not self.paused }, some change)
      else (self, none)

  unfoldable pub after_view :
      Ui t → Option KeyCode → RootView t × Option UiEvent → Ui t × Option UiEvent
  unfolding ui_event ui_key
  after_view self code (view, some e) = ui_event (record self { view = view; dirty = true }) e
  after_view self code (view, none) = ui_key (record self { view = view }) code

  -- `Ui::handle_event`.
  unfoldable pub handle_event : Ui t → t.Event → Ui t × Option UiEvent
  unfolding after_view view_event
  handle_event self event = after_view self (t.key_code event) (view_event self.view event)

  -- The events that `run_app` handles before it returns; the state is the one it leaves.
  unfoldable pub run_app : Ui t → List t.Event → Ui t × Bool
  unfolding handle_event
  run_app self [] = (self, false)
  run_app self (e ∷ es) =
      let r = handle_event self e in
      let rest = run_app r.0 es in if is_quit r.1 then (r.0, true) else rest
