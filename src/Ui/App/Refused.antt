-- ===== src/Ui/App/Refused.antt =====
-- What becomes of an event that the filter editor answers with nothing.
use ptraf.Shared.{ℕ, ◌≡◌, refl, ap, ◌∙◌, Bool, true, false, Option, none, some, if◌then◌else◌}
use ptraf.Ui.Filter.{UiEvent, unfiltered, process, select_process}
use ptraf.Ui.Term.{Term, KeyCode}
use ptraf.Ui.FilterEditor.{FilterView, handle_input, accepts, aborts, is_valid}
use ptraf.Ui.FilterEditor
use ptraf.Ui.SocketTableView.{SocketTableView, selected_pid}
use ptraf.Ui.SocketTableView
use ptraf.Ui.App.{
  MainView, Ui, main_view, main_key, or_keys, table_event, view_event, view_of, update_filter,
  ui_event, after_view, handle_event, select_process_of,
}

-- An editor whose draft does not parse, and an input that would accept it.
pub record Refuses (t : Term) (v : FilterView t) (e : t.Event) : Type 0 where
  pub editing : v.editing ≡ true
  pub invalid : is_valid t v ≡ false
  pub kept : aborts (t.input_of e) ≡ false
  pub accepted : accepts (t.input_of e) ≡ true
  pub code : t.key_code e ≡ some KeyCode.enter

if_true {ℓ} : {A : Type ℓ} {x : A} (y : A) (b : Bool) → b ≡ true → (if b then x else y) ≡ x
if_true y b h = rw h refl

module _ {t : Term} where
  editor-Refuses :
      (v : FilterView t) (e : t.Event) → Refuses t v e → FilterEditor.handle_event t v e ≡ (v, none)
  unfolding FilterEditor.handle_event handle_input
  editor-Refuses v e h = rw (h.editing, h.kept, h.accepted, h.invalid) refl

  table-Refuses :
      (v : SocketTableView t) (e : t.Event)
      → Refuses t v.filter_view e
      → SocketTableView.handle_event t v e ≡ (v, none)
  unfolding SocketTableView.handle_event
  table-Refuses v e h =
      if_true _ v.filter_view.editing h.editing
      ∙ ap (λ (r : FilterView t × Option UiEvent). (record v { filter_view = r.0 }, r.1))
          (editor-Refuses v.filter_view e h)

  main-Refuses :
      (v : SocketTableView t) (e : t.Event) (p : ℕ)
      → Refuses t v.filter_view e
      → selected_pid t v ≡ some p
      → table_event t (main_key t) v e ≡ (v, some (select_process p))
  unfolding table_event or_keys main_key select_process_of
  main-Refuses v e p h sel = rw (table-Refuses v e h, h.code, sel) refl

  -- In the main view, Enter on a draft that does not parse is refused by the editor and then taken
  -- by the view: with a row selected, the program goes on to the view of the process of that row,
  -- with a new editor that has no draft.
  pub handle_event-Refuses :
      (u : Ui t) (v : MainView t) (e : t.Event) (p : ℕ)
      → u.view ≡ main_view v
      → u.filter ≡ unfiltered
      → Refuses t v.sock_table_view.filter_view e
      → selected_pid t v.sock_table_view ≡ some p
      → handle_event t u e ≡ (
        record u { dirty = true; filter = process p; view = view_of t (process p) u.custom_filter },
        none,
      )
  unfolding handle_event after_view view_event ui_event update_filter
  handle_event-Refuses u v e p shown no_filter h sel =
      rw (shown, main-Refuses v.sock_table_view e p h sel, no_filter) refl
