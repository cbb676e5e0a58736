-- ===== src/Ui/SocketTableView.antt =====
-- ptraf/src/ui/socktable.rs, `SocketTableView`: the selected row of the table and the keys of the
-- filter editor. The `TableState` of the terminal library is the selected index.
pub mod Selection
pub mod Cells
use ptraf.Shared.{
  ℕ, ◌+◌, ◌-◌, min, ◌≡◌, Bool, true, false, Option, none, some, List, length, ◌==◌, if◌then◌else◌,
  option_map, and_then, get_elem?,
}
use ptraf.Clock.{u64_mod}
use ptraf.Ui.Filter.{CustomFilter, UiEvent, change}
use ptraf.Ui.Term.{Term, KeyCode}
use ptraf.Ui.FilterEditor.{FilterView, set_editing}
use ptraf.Ui.FilterEditor
use ptraf.Ui.SocketTable.{SocketTable, Entry}

pub record SocketTableView (t : Term) : Type 0 where
  pub socket_table : SocketTable
  pub selected : Option ℕ
  pub filter_view : FilterView t

abbrev pub is_slash : Option KeyCode → Bool
is_slash (some (KeyCode.char c)) = c == b'/'
is_slash _ = false

-- `selected.saturating_add(1).min(self.len().saturating_sub(1))`, or the first row.
abbrev pub next_row : ℕ → Option ℕ → ℕ
next_row n none = 0
next_row n (some row) = min (min (row + 1) (u64_mod - 1)) (n - 1)

module _ (t : Term) where
  unfoldable pub new_view : SocketTable → Option CustomFilter → SocketTableView t
  unfolding FilterEditor.with_filter
  new_view socket_table filter = record {
    socket_table = socket_table;
    selected = none;
    filter_view = FilterEditor.with_filter t filter;
  }

  abbrev pub len : SocketTableView t → ℕ
  len self = length self.socket_table.dataset

  abbrev pub is_empty : SocketTableView t → Bool
  is_empty self = len self == 0

  unfoldable pub down : SocketTableView t → SocketTableView t
  down self = record self {
    selected = if is_empty self then none else some (next_row (len self) self.selected);
  }

  unfoldable pub up : SocketTableView t → SocketTableView t
  up self = record self {
    selected =
        if is_empty self
        then none
        else option_map (λ row. min (row - 1) (len self - 1)) self.selected;
  }

  unfoldable pub selected_entry : SocketTableView t → Option Entry
  selected_entry self = and_then self.selected (λ row. get_elem? self.socket_table.dataset row)

  unfoldable pub selected_pid : SocketTableView t → Option ℕ
  selected_pid self =
      and_then self.selected
        (λ row. option_map (λ (e : Entry). e.pid) (get_elem? self.socket_table.dataset row))

  -- What the filter editor does with an event, in the table.
  abbrev with_editor :
      SocketTableView t → FilterView t × Option UiEvent → SocketTableView t × Option UiEvent
  with_editor self r = (record self { filter_view = r.0 }, r.1)

  unfoldable pub handle_event : SocketTableView t → t.Event → SocketTableView t × Option UiEvent
  unfolding FilterEditor.handle_event set_editing
  handle_event self event =
      if self.filter_view.editing
      then with_editor self (FilterEditor.handle_event t self.filter_view event)
      else if is_slash (t.key_code event)
      then (record self { filter_view = set_editing t self.filter_view }, some change)
      else (self, none)
