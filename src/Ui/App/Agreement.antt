-- ===== src/Ui/App/Agreement.antt =====
-- ptraf/src/ui.rs: how the view, the table and the editor agree with the filters of the program.
use ptraf.Shared.{
  ◌≡◌, refl, sym, ap, ◌∙◌, subst, Bool, true, false, not, Option, none, some, List, [], ◌∷◌,
  if_cases,
}
use ptraf.Ui.Filter.{
  Filter, UiEvent, unfiltered, process, remote_ip, filter_eq, set_custom_filter, change, quit,
  go_back, select_process, select_remote_ip,
}
use ptraf.Ui.Term.{Term, KeyCode}
use ptraf.Ui.FilterEditor.{
  FilterView, set_editing, handle_input, edit, update, abort, accepts, aborts, is_valid, commit,
}
use ptraf.Ui.FilterEditor
use ptraf.Ui.FilterEditor.Editing.{IsEditor, AreFilters, with_filter-IsEditor}
use ptraf.Ui.SocketTableView.{new_view}
use ptraf.Ui.SocketTable.{Entry, SocketTable}
use ptraf.Ui.SocketTable
use ptraf.Ui.App.{
  RootView, Ui, view_event, view_of, table_of, default_ui, update_filter, ui_event, ui_key,
  after_view, handle_event, run_app, is_quit, is_char,
}
use ptraf.Ui.App.Keeping.{set_by, Keeps, view_table, view_filter, view_event-Keeps}

module _ {t : Term} where
  -- The view is the one for the filter of the program, its table is collected with that filter,
  -- and its editor has committed the custom filter of the program, which is what its text spells.
  pub record Agrees (u : Ui t) : Type 0 where
    pub view : view_filter u.view ≡ u.filter
    pub table : (view_table u.view).socket_table.filter ≡ u.filter
    pub custom : (view_table u.view).filter_view.committed_state ≡ u.custom_filter
    pub editor : IsEditor (view_table u.view).filter_view

  view_of-Agrees :
      (u : Ui t) (f : Filter)
      → AreFilters u.custom_filter
      → Agrees (record u { filter = f; view = view_of t f u.custom_filter })
  unfolding view_of new_view FilterEditor.with_filter table_of SocketTable.new
      SocketTable.with_filter
  view_of-Agrees u unfiltered h = record {
    view = refl;
    table = refl;
    custom = refl;
    editor = with_filter-IsEditor u.custom_filter h;
  }
  view_of-Agrees u (process p) h = record {
    view = refl;
    table = refl;
    custom = refl;
    editor = with_filter-IsEditor u.custom_filter h;
  }
  view_of-Agrees u (remote_ip ip) h = record {
    view = refl;
    table = refl;
    custom = refl;
    editor = with_filter-IsEditor u.custom_filter h;
  }

  update_filter-Agrees :
      (u : Ui t) (f : Filter) → Agrees u → AreFilters u.custom_filter → Agrees (update_filter t u f)
  unfolding update_filter
  update_filter-Agrees u f h c =
      if_cases Agrees (filter_eq u.filter f) (λ _. h) (λ _. view_of-Agrees u f c)

  toggle-Agrees : (u : Ui t) → Agrees u → Agrees (record u { dirty = true; paused = not u.paused })
  toggle-Agrees u h = record {
    view = h.view;
    table = h.table;
    custom = h.custom;
    editor = h.editor;
  }

  ui_key-Agrees : (u : Ui t) (c : Option KeyCode) → Agrees u → Agrees (ui_key t u c).0
  unfolding ui_key
  ui_key-Agrees u none h = h
  ui_key-Agrees u (some c) h =
      if_cases (λ (r : Ui t × Option UiEvent). Agrees r.0) (is_char b'q' c) (λ _. h)
        (λ _.
          if_cases (λ (r : Ui t × Option UiEvent). Agrees r.0) (is_char b' ' c)
            (λ _. toggle-Agrees u h) (λ _. h))

  -- The state with another view and custom filter.
  moved-Agrees :
      (u : Ui t) (v : RootView t) (o : Option UiEvent) (w : Ui t)
      → w.view ≡ v
      → w.filter ≡ u.filter
      → w.custom_filter ≡ set_by u.custom_filter o
      → Agrees u
      → view_filter v ≡ view_filter u.view
      → Keeps (view_table u.view) (view_table v, o)
      → Agrees w
  moved-Agrees u v o w wv wf wc h f k = record {
    view = ap view_filter wv ∙ f ∙ h.view ∙ sym wf;
    table =
        ap (λ x. (view_table x).socket_table.filter) wv
        ∙ ap (λ (s : SocketTable). s.filter) k.table
        ∙ h.table
        ∙ sym wf;
    custom =
        ap (λ x. (view_table x).filter_view.committed_state) wv
        ∙ k.custom
        ∙ ap (λ c. set_by c o) h.custom
        ∙ sym wc;
    editor = subst (λ x. IsEditor (view_table x).filter_view) (sym wv) (k.editor h.editor);
  }

  custom-AreFilters : (u : Ui t) → Agrees u → AreFilters u.custom_filter
  custom-AreFilters u h = subst AreFilters h.custom h.editor.committed

  ui_event-Agrees :
      (u : Ui t) (v : RootView t) (e : UiEvent)
      → Agrees u
      → view_filter v ≡ view_filter u.view
      → Keeps (view_table u.view) (view_table v, some e)
      → Agrees (ui_event t (record u { view = v; dirty = true }) e).0
  unfolding ui_event
  ui_event-Agrees u v quit h f k = moved-Agrees u v _ _ refl refl refl h f k
  ui_event-Agrees u v change h f k = moved-Agrees u v _ _ refl refl refl h f k
  ui_event-Agrees u v (set_custom_filter c) h f k = moved-Agrees u v _ _ refl refl refl h f k
  ui_event-Agrees u v go_back h f k =
      let w = moved-Agrees u v _ (record u { view = v; dirty = true }) refl refl refl h f k in
      update_filter-Agrees _ unfiltered w (custom-AreFilters u h)
  ui_event-Agrees u v (select_process p) h f k =
      let w = moved-Agrees u v _ (record u { view = v; dirty = true }) refl refl refl h f k in
      update_filter-Agrees _ (process p) w (custom-AreFilters u h)
  ui_event-Agrees u v (select_remote_ip ip) h f k =
      let w = moved-Agrees u v _ (record u { view = v; dirty = true }) refl refl refl h f k in
      update_filter-Agrees _ (remote_ip ip) w (custom-AreFilters u h)

  after_view-Agrees :
      (u : Ui t) (code : Option KeyCode) (r : RootView t × Option UiEvent)
      → Agrees u
      → view_filter r.0 ≡ view_filter u.view
      → Keeps (view_table u.view) (view_table r.0, r.1)
      → Agrees (after_view t u code r).0
  unfolding after_view
  after_view-Agrees u code (v, none) h f k =
      ui_key-Agrees (record u { view = v }) code (moved-Agrees u v none _ refl refl refl h f k)
  after_view-Agrees u code (v, some e) h f k = ui_event-Agrees u v e h f k

  -- The program starts in a state that agrees.
  pub default_ui-Agrees : Agrees (default_ui t)
  unfolding default_ui
  default_ui-Agrees = view_of-Agrees (record (default_ui t) { paused = false }) unfiltered tt

  -- Every event, whatever the terminal makes of it, keeps the agreement.
  pub handle_event-Agrees : (u : Ui t) (e : t.Event) → Agrees u → Agrees (handle_event t u e).0
  unfolding handle_event
  handle_event-Agrees u e h =
      let k = view_event-Keeps u.view e in
      after_view-Agrees u (t.key_code e) (view_event t u.view e) h k.0 k.2

  -- From a state that agrees on, whatever the events are, the view is the one for the filter of
  -- the program, its table is collected with that filter, and the custom filter in force is the
  -- one that the editor of the view has committed and that its text spells.
  pub run_app-Agrees : (u : Ui t) (es : List t.Event) → Agrees u → Agrees (run_app t u es).0
  unfolding run_app
  run_app-Agrees u [] h = h
  run_app-Agrees u (e ∷ es) h =
      let k = handle_event-Agrees u e h in
      if_cases (λ (r : Ui t × Bool). Agrees r.0) (is_quit (handle_event t u e).1) (λ _. k)
        (λ _. run_app-Agrees (handle_event t u e).0 es k)
