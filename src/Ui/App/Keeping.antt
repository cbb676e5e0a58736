-- ===== src/Ui/App/Keeping.antt =====
-- What the table, the editor and the keys of a view keep when they handle an event.
use ptraf.Shared.{
  ℕ, ◌≡◌, refl, sym, ap, ◌∙◌, subst, Bool, true, false, Option, none, some, if_cases, option_map,
}
use ptraf.Ui.Filter.{
  Filter, CustomFilter, UiEvent, unfiltered, process, remote_ip, set_custom_filter, change, go_back,
  select_process, select_remote_ip,
}
use ptraf.Ui.Term.{Term, KeyCode, Input}
use ptraf.Ui.FilterEditor.{
  FilterView, set_editing, handle_input, edit, update, abort, accepts, aborts, is_valid, commit,
}
use ptraf.Ui.FilterEditor
use ptraf.Ui.FilterEditor.Editing.{IsEditor, handle_event-IsEditor, set_editing-IsEditor}
use ptraf.Ui.SocketTableView.{
  SocketTableView, new_view, up, down, is_slash, selected_pid, selected_entry,
}
use ptraf.Ui.SocketTableView
use ptraf.Ui.SocketTable.{Entry}
use ptraf.Ui.Sparkline.{TrafficSparkline}
use ptraf.Ui.App.{
  RootView, main_view, process_view, remote_ip_view, main_key, remote_ip_key, process_key, or_keys,
  table_event, view_event, select_process_of, select_ip_of, is_up, is_down, is_process, is_char,
  is_back,
}

-- The custom filter after an event that may set it.
abbrev pub set_by : Option CustomFilter → Option UiEvent → Option CustomFilter
set_by c (some (set_custom_filter f)) = f
set_by c _ = c

module _ {t : Term} where
  -- What an editor does to the committed filter is what its answer says.
  record Sets (v : FilterView t) (r : FilterView t × Option UiEvent) : Type 0 where
    is_set : r.0.committed_state ≡ set_by v.committed_state r.1

  edit-Sets : (v : FilterView t) (r : t.TextArea × Bool) → Sets v (edit t v r, some change)
  unfolding edit update
  edit-Sets v (area, true) = record { is_set = refl }
  edit-Sets v (area, false) = record { is_set = refl }

  abort-Sets : (v : FilterView t) → Sets v (abort t v, none)
  unfolding abort
  abort-Sets v = record { is_set = refl }

  commit-Sets :
      (v : FilterView t)
      → Sets v (commit t v, some (set_custom_filter (commit t v).committed_state))
  commit-Sets v = record { is_set = refl }

  same-Sets : (v : FilterView t) → Sets v (v, none)
  same-Sets v = record { is_set = refl }

  handle_input-Sets : (v : FilterView t) (i : Input) → Sets v (handle_input t v i)
  unfolding handle_input
  handle_input-Sets v i =
      if_cases (Sets v) (aborts i) (λ _. abort-Sets v)
        (λ _.
          if_cases (Sets v) (accepts i)
            (λ _. if_cases (Sets v) (is_valid t v) (λ _. commit-Sets v) (λ _. same-Sets v))
            (λ _. edit-Sets v (t.input v.textarea i)))

  editor-Sets : (v : FilterView t) (e : t.Event) → Sets v (FilterEditor.handle_event t v e)
  unfolding FilterEditor.handle_event
  editor-Sets v e =
      if_cases (Sets v) v.editing (λ _. handle_input-Sets v (t.input_of e)) (λ _. same-Sets v)

  -- What a table keeps when it handles an event.
  pub record Keeps (v : SocketTableView t) (r : SocketTableView t × Option UiEvent) : Type 0 where
    pub table : r.0.socket_table ≡ v.socket_table
    pub custom : r.0.filter_view.committed_state ≡ set_by v.filter_view.committed_state r.1
    pub editor : IsEditor v.filter_view → IsEditor r.0.filter_view

  slash-Keeps :
      (v : SocketTableView t)
      → Keeps v (record v { filter_view = set_editing t v.filter_view }, some change)
  unfolding set_editing
  slash-Keeps v = record {
    table = refl;
    custom = refl;
    editor = set_editing-IsEditor v.filter_view;
  }

  idle-Keeps : (v : SocketTableView t) → Keeps v (v, none)
  idle-Keeps v = record { table = refl; custom = refl; editor = λ h. h }

  view-Keeps : (v : SocketTableView t) (e : t.Event) → Keeps v (SocketTableView.handle_event t v e)
  unfolding SocketTableView.handle_event
  view-Keeps v e =
      if_cases (Keeps v) v.filter_view.editing
        (λ _. record {
          table = refl;
          custom = (editor-Sets v.filter_view e).is_set;
          editor = handle_event-IsEditor v.filter_view e;
        })
        (λ _. if_cases (Keeps v) (is_slash (t.key_code e)) (λ _. slash-Keeps v) (λ _. idle-Keeps v))

  -- The keys of a view do not touch its editor.
  record KeysKeep (v : SocketTableView t) (r : SocketTableView t × Option UiEvent) : Type 0 where
    table : r.0.socket_table ≡ v.socket_table
    view : r.0.filter_view ≡ v.filter_view
    custom : (c : Option CustomFilter) → c ≡ set_by c r.1

  up-KeysKeep : (v : SocketTableView t) → KeysKeep v (up t v, some change)
  unfolding up
  up-KeysKeep v = record { table = refl; view = refl; custom = λ c. refl }

  down-KeysKeep : (v : SocketTableView t) → KeysKeep v (down t v, some change)
  unfolding down
  down-KeysKeep v = record { table = refl; view = refl; custom = λ c. refl }

  stay-KeysKeep :
      (v : SocketTableView t) (o : Option UiEvent)
      → ((c : Option CustomFilter) → c ≡ set_by c o)
      → KeysKeep v (v, o)
  stay-KeysKeep v o h = record { table = refl; view = refl; custom = h }

  process_keeps :
      (v : SocketTableView t) (c : Option CustomFilter) → c ≡ set_by c (select_process_of t v)
  unfolding select_process_of
  process_keeps v c = go (selected_pid t v)
    where
      go : (o : Option ℕ) → c ≡ set_by c (option_map select_process o)
      go none = refl
      go (some p) = refl

  ip_keeps : (v : SocketTableView t) (c : Option CustomFilter) → c ≡ set_by c (select_ip_of t v)
  unfolding select_ip_of
  ip_keeps v c = go (selected_entry t v)
    where
      go :
          (o : Option Entry)
          → c ≡ set_by c (option_map (λ (e : Entry). select_remote_ip e.socket.remote.ip) o)
      go none = refl
      go (some e) = refl

  main_key-KeysKeep : (v : SocketTableView t) (c : KeyCode) → KeysKeep v (main_key t v c)
  unfolding main_key
  main_key-KeysKeep v c =
      if_cases (KeysKeep v) (is_up c) (λ _. up-KeysKeep v)
        (λ _.
          if_cases (KeysKeep v) (is_down c) (λ _. down-KeysKeep v)
            (λ _.
              if_cases (KeysKeep v) (is_process c) (λ _. stay-KeysKeep v _ (process_keeps v))
                (λ _.
                  if_cases (KeysKeep v) (is_char b'r' c) (λ _. stay-KeysKeep v _ (ip_keeps v))
                    (λ _. stay-KeysKeep v none (λ _. refl)))))

  remote_ip_key-KeysKeep : (v : SocketTableView t) (c : KeyCode) → KeysKeep v (remote_ip_key t v c)
  unfolding remote_ip_key
  remote_ip_key-KeysKeep v c =
      if_cases (KeysKeep v) (is_back c) (λ _. stay-KeysKeep v (some go_back) (λ _. refl))
        (λ _.
          if_cases (KeysKeep v) (is_up c) (λ _. up-KeysKeep v)
            (λ _.
              if_cases (KeysKeep v) (is_down c) (λ _. down-KeysKeep v)
                (λ _.
                  if_cases (KeysKeep v) (is_process c) (λ _. stay-KeysKeep v _ (process_keeps v))
                    (λ _. stay-KeysKeep v none (λ _. refl)))))

  process_key-KeysKeep : (v : SocketTableView t) (c : KeyCode) → KeysKeep v (process_key t v c)
  unfolding process_key
  process_key-KeysKeep v c =
      if_cases (KeysKeep v) (is_back c) (λ _. stay-KeysKeep v (some go_back) (λ _. refl))
        (λ _.
          if_cases (KeysKeep v) (is_up c) (λ _. up-KeysKeep v)
            (λ _.
              if_cases (KeysKeep v) (is_down c) (λ _. down-KeysKeep v)
                (λ _.
                  if_cases (KeysKeep v) (is_char b'r' c) (λ _. stay-KeysKeep v _ (ip_keeps v))
                    (λ _. stay-KeysKeep v none (λ _. refl)))))

  or_keys-Keeps :
      (keys : SocketTableView t → KeyCode → SocketTableView t × Option UiEvent)
      (h : (v : SocketTableView t) (c : KeyCode) → KeysKeep v (keys v c)) (v : SocketTableView t)
      (code : Option KeyCode) (r : SocketTableView t × Option UiEvent)
      → Keeps v r
      → Keeps v (or_keys t keys code r)
  unfolding or_keys
  or_keys-Keeps keys h v code (w, some e) k = k
  or_keys-Keeps keys h v none (w, none) k = k
  or_keys-Keeps keys h v (some c) (w, none) k = record {
    table = (h w c).table ∙ k.table;
    custom =
        ap (λ (f : FilterView t). f.committed_state) (h w c).view
        ∙ k.custom
        ∙ (h w c).custom v.filter_view.committed_state;
    editor = λ e. subst IsEditor (sym (h w c).view) (k.editor e);
  }

  table_event-Keeps :
      (keys : SocketTableView t → KeyCode → SocketTableView t × Option UiEvent)
      (h : (v : SocketTableView t) (c : KeyCode) → KeysKeep v (keys v c)) (v : SocketTableView t)
      (e : t.Event)
      → Keeps v (table_event t keys v e)
  unfolding table_event
  table_event-Keeps keys h v e = or_keys-Keeps keys h v (t.key_code e) _ (view-Keeps v e)

  -- The table and the graph of a view, and the filter that the view is for.
  abbrev pub view_table : RootView t → SocketTableView t
  view_table (main_view v) = v.sock_table_view
  view_table (process_view v) = v.sock_table_view
  view_table (remote_ip_view v) = v.sock_table_view

  abbrev pub view_sparkline : RootView t → TrafficSparkline
  view_sparkline (main_view v) = v.traffic_sparkline_view
  view_sparkline (process_view v) = v.traffic_sparkline_view
  view_sparkline (remote_ip_view v) = v.traffic_sparkline_view

  abbrev pub view_filter : RootView t → Filter
  view_filter (main_view v) = unfiltered
  view_filter (process_view v) = process v.pid
  view_filter (remote_ip_view v) = remote_ip v.ip

  pub view_event-Keeps :
      (v : RootView t) (e : t.Event)
      → (view_filter (view_event t v e).0 ≡ view_filter v)
        × (view_sparkline (view_event t v e).0 ≡ view_sparkline v)
        × Keeps (view_table v) (view_table (view_event t v e).0, (view_event t v e).1)
  unfolding view_event
  view_event-Keeps (main_view v) e =
      (refl, refl, table_event-Keeps (main_key t) main_key-KeysKeep v.sock_table_view e)
  view_event-Keeps (process_view v) e =
      (refl, refl, table_event-Keeps (process_key t) process_key-KeysKeep v.sock_table_view e)
  view_event-Keeps (remote_ip_view v) e =
      (refl, refl, table_event-Keeps (remote_ip_key t) remote_ip_key-KeysKeep v.sock_table_view e)
