-- ===== src/Ui/Examples.antt =====
-- The theorems on the user interface, with a simple terminal and a store of one segment.
use ptraf.Shared.{
  ◌<◌, ◌↔◌, ◌≡◌, ◌≢◌, Option, refl, ◌⊎◌, All, true, false, none, some, List, [], ◌∷◌, leb, arith,
}
use ptraf.Std.Bytes.{little}
use ptraf.Clock.{u64_mod, ClockNano}
use ptraf.Filter.Interpretor.{Interpretor}
use ptraf.Filter.Expr
use ptraf.Common.Types.{stream}
use ptraf.Store.Traffic.{default_stat}
use ptraf.Store.Dash.{simple_dash}
use ptraf.Store.Segment.{default_segment}
use ptraf.Store.Segment
use ptraf.Store.Series.{Store, TimeSegment}
use ptraf.Store.Examples.{received, sent}
use ptraf.Std.Ip.{SocketAddr}
use ptraf.Std.Ip
use ptraf.Ui.Filter.{unfiltered, process, change, set_custom_filter}
use ptraf.Ui.Term.{simple_term, KeyCode, Input, Key}
use ptraf.Ui.FilterEditor.{
  FilterView, handle_input, interpretor, committed_interpretor, is_valid, accepts, aborts,
  set_editing,
}
use ptraf.Ui.FilterEditor
use ptraf.Ui.FilterEditor.Editing.{
  IsEditor, set_editing-IsEditor, with_filter-IsEditor, handle_input_cases, Accepts, draft_of,
}
use ptraf.Ui.SocketTable.{
  SocketTable, Entry, collect, collect_segments, new_collector, lookup, default_config,
}
use ptraf.Ui.SocketTable
use ptraf.Store.Segment.Tally.{wrapped}
use ptraf.Ui.SocketTable.Sums.{shown, shown_rate, sum_segments, collect_segments_lem}
use ptraf.Ui.SocketTableView.{SocketTableView, new_view, down, len, selected_pid}
use ptraf.Ui.SocketTableView.Selection.{Selects, row_after, down_lem}
use ptraf.Ui.App.Quitting.{handle_event-quit}
use ptraf.Ui.App.Keeping.{view_filter}
use ptraf.Ui.App.{is_quit, Ui, main_view, default_ui, run_app, handle_event, view_of}
use ptraf.Ui.Sparkline.{default_sparkline}
use ptraf.Ui.App.Refused.{Refuses, handle_event-Refuses}
use ptraf.Filter.Grammar.{parse_error, ParseError}
use ptraf.Shared.Results.{err, ok}
use ptraf.Ui.App.Agreement.{Agrees, default_ui-Agrees, run_app-Agrees}
use ptraf.Clock.{trunc}
use ptraf.Ui.SocketTable.Keys.{has_row, OneEach}
use ptraf.Ui.SocketTable.Described.{Some, Known, collect-OneEach}
use ptraf.Store.Series.Invariant.{IsStore}
use ptraf.Ui.SocketTable.Collected.{Passes, collect_total}

abbrev press : KeyCode → Key → KeyCode × Input
press code key = (code, record { key = key; ctrl = false })

-- The keys of a user who types the filter `t` and leaves it: `/`, `t`, Enter, `j`.
abbrev typing : List (KeyCode × Input)
typing =
    press (KeyCode.char b'/') (Key.char b'/')
    ∷ press (KeyCode.char b't') (Key.char b't')
    ∷ press KeyCode.enter Key.enter
    ∷ press (KeyCode.char b'j') (Key.char b'j')
    ∷ []

run_app-Agrees_example : Agrees (run_app simple_term (default_ui simple_term) typing).0
run_app-Agrees_example = run_app-Agrees (default_ui simple_term) typing default_ui-Agrees

abbrev segments : List (TimeSegment simple_dash)
segments =
    record {
      ts = 1000;
      segment =
          Segment.batch_update simple_dash little (default_segment simple_dash)
            (received ∷ sent ∷ []);
    }
    ∷ []

abbrev store : Store simple_dash
store = record { window = 250; capacity = 4; segments = segments }

abbrev clock : ClockNano
clock = record { start = 0; wall_time = 0 }

abbrev local : SocketAddr
local = record { ip = Ip.v4 16777343; port = 20480 }

collect_segments_lem_example :
    (let c = collect_segments simple_dash clock (new_collector unfiltered none 500) segments in
      (wrapped (shown (lookup local c.socket_cache))
        ≡ wrapped (sum_segments simple_dash local unfiltered none (λ s. true) segments))
      × (wrapped (shown_rate (lookup local c.socket_cache))
          ≡ wrapped (sum_segments simple_dash local unfiltered none (λ s. leb 500 s.ts) segments)))
collect_segments_lem_example =
    collect_segments_lem simple_dash local clock unfiltered none 500 segments

abbrev table : SocketTable
table = SocketTable.new default_config

abbrev tcp_only : Interpretor
tcp_only = record { ast = Expr.protocol ptraf.Filter.Expr.tcp }

-- The table after a collection.
abbrev collected :
    (t : SocketTable) × (collect simple_dash table 1100 clock store (some tcp_only) ≡ some t)
    × All (Passes table.filter (some tcp_only)) t.dataset
collected =
    collect_total simple_dash table 1100 clock store (some tcp_only) (omega arith) (omega arith)
      (omega arith)

window_of_1100 : trunc 1100 250 ≡ some 1000
unfolding trunc
window_of_1100 = refl

store-IsStore : IsStore store
store-IsStore = record {
  window_pos = omega arith;
  window_fits = omega arith;
  bounded = omega arith;
  in_windows = refl;
}

collect-OneEach_example :
    OneEach collected.0.dataset
    × ((has_row local collected.0.dataset ≡ true)
        ↔ Some (Known simple_dash 300000000000 1000 local unfiltered (some tcp_only)) segments)
unfolding default_config SocketTable.new
collect-OneEach_example =
    collect-OneEach simple_dash table 1100 clock store (some tcp_only) collected.0 1000 local
      store-IsStore collected.1 window_of_1100

abbrev editor : FilterView simple_term
editor = set_editing simple_term (FilterEditor.with_filter simple_term none)

editor-IsEditor : IsEditor editor
editor-IsEditor =
    set_editing-IsEditor (FilterEditor.with_filter simple_term none) (with_filter-IsEditor none tt)

editor_editing : editor.editing ≡ true
unfolding set_editing
editor_editing = refl

abbrev enter : Input
enter = record { key = Key.enter; ctrl = false }

handle_input_cases_example :
    ((enter.key ≡ Key.esc)
      × (interpretor simple_term (handle_input simple_term editor enter).0
          ≡ committed_interpretor simple_term editor)
      × ((handle_input simple_term editor enter).0.committed_state ≡ editor.committed_state)
      × ((handle_input simple_term editor enter).0.editing ≡ false)
      × ((handle_input simple_term editor enter).1 ≡ none))
    ⊎ (Accepts enter
        × ((o : Option Interpretor) × (draft_of editor.textarea ≡ ok o)
            × (interpretor simple_term (handle_input simple_term editor enter).0 ≡ o))
        × ((handle_input simple_term editor enter).0.editing ≡ false)
        × ((handle_input simple_term editor enter).1
            ≡ some (set_custom_filter (handle_input simple_term editor enter).0.committed_state)))
    ⊎ (Accepts enter
        × ((x : ParseError) × (draft_of editor.textarea ≡ err x))
        × (handle_input simple_term editor enter ≡ (editor, none)))
    ⊎ ((enter.key ≢ Key.esc)
        × (¬ Accepts enter)
        × ((handle_input simple_term editor enter).0.textarea
            ≡ (simple_term.input editor.textarea enter).0)
        × ((handle_input simple_term editor enter).0.draft_interpretor
            ≡ draft_of (simple_term.input editor.textarea enter).0)
        × ((handle_input simple_term editor enter).0.committed_state ≡ editor.committed_state)
        × ((handle_input simple_term editor enter).0.editing ≡ true)
        × ((handle_input simple_term editor enter).1 ≡ some change))
handle_input_cases_example = handle_input_cases editor enter editor-IsEditor editor_editing

-- A table of two rows, none of them selected.
abbrev entry : Entry
entry = record {
  socket = record { pid = 7; local = local; remote = local; sock_type = stream };
  stat = default_stat;
  last_activity = 0;
  rate_stat = default_stat;
  pid = 7;
}

abbrev view : SocketTableView simple_term
view = new_view simple_term (record table { dataset = entry ∷ entry ∷ [] }) none

view-len : len simple_term view < u64_mod
unfolding new_view
view-len = omega arith

down_lem_example :
    ((len simple_term view ≡ 0) × ((down simple_term view).selected ≡ none))
    ⊎ ((e : Entry) × Selects (down simple_term view) e
        × ((down simple_term view).selected
            ≡ some (row_after (len simple_term view) view.selected)))
down_lem_example = down_lem view view-len

-- The main view with the first row selected and a draft `t` that does not parse.
abbrev selecting : SocketTableView simple_term
selecting = record view {
  selected = some 0;
  filter_view = record {
    committed_state = none;
    draft_interpretor = err parse_error;
    textarea = (b't' ∷ []) ∷ [];
    editing = true;
  };
}

abbrev refusing : Ui simple_term
refusing = record (default_ui simple_term) {
  filter = unfiltered;
  view =
      main_view
        (record { traffic_sparkline_view = default_sparkline; sock_table_view = selecting });
}

abbrev refused : KeyCode × Input
refused = press KeyCode.enter Key.enter

refuses : Refuses simple_term selecting.filter_view refused
refuses = record { editing = refl; invalid = refl; kept = refl; accepted = refl; code = refl }

selecting_pid : selected_pid simple_term selecting ≡ some 7
unfolding selected_pid new_view
selecting_pid = refl

handle_event-Refuses_example : handle_event simple_term refusing refused ≡ (
  record refusing {
    dirty = true;
    filter = process 7;
    view = view_of simple_term (process 7) refusing.custom_filter;
  },
  none,
)
handle_event-Refuses_example =
    handle_event-Refuses refusing
      (record { traffic_sparkline_view = default_sparkline; sock_table_view = selecting }) refused 7
      refl refl refuses selecting_pid

abbrev leaving : KeyCode × Input
leaving = press (KeyCode.char b'q') (Key.char b'q')

leaving_quits : is_quit (handle_event simple_term (default_ui simple_term) leaving).1 ≡ true
unfolding handle_event default_ui
leaving_quits = refl

handle_event-quit_example :
    (simple_term.key_code leaving ≡ some (KeyCode.char b'q'))
    × (view_filter (default_ui simple_term).view ≡ unfiltered)
handle_event-quit_example = handle_event-quit (default_ui simple_term) leaving leaving_quits
