-- ===== src/Ui/App/Quitting.antt =====
-- ptraf/src/ui.rs, `Ui::handle_event`: which events the user interface answers with `Quit`.
use mathlib.Core.Bool.{false≢true}
use ptraf.Shared.{◌≡◌, refl, sym, ◌∙◌, subst, true, false, Option, none, some, is_some, arith}
use ptraf.Ui.Filter.{UiEvent, unfiltered}
use ptraf.Ui.Term.{Term, KeyCode}
use ptraf.Ui.FilterEditor.{FilterView, handle_input, edit, accepts, aborts, is_valid}
use ptraf.Ui.FilterEditor
use ptraf.Ui.SocketTableView.{SocketTableView, selected_pid, selected_entry, is_slash}
use ptraf.Ui.SocketTableView
use ptraf.Ui.App.{
  RootView, Ui, main_view, process_view, remote_ip_view, main_key, remote_ip_key, process_key,
  or_keys, table_event, view_event, ui_event, ui_key, after_view, handle_event, is_quit,
  select_process_of, select_ip_of,
}
use ptraf.Ui.App.Keeping.{view_filter}

-- An answer that is not to quit.
abbrev Calm {ℓ} : {A : Type ℓ} → A × Option UiEvent → Type 0
Calm r = is_quit r.1 ≡ false

module _ {t : Term} where
  editor-Calm : (v : FilterView t) (e : t.Event) → Calm (FilterEditor.handle_event t v e)
  unfolding FilterEditor.handle_event handle_input
  editor-Calm v e = ground arith

  table-Calm : (v : SocketTableView t) (e : t.Event) → Calm (SocketTableView.handle_event t v e)
  unfolding SocketTableView.handle_event
  table-Calm v e = let h = editor-Calm v.filter_view e in ground arith

  process_of-Calm : (v : SocketTableView t) → is_quit (select_process_of t v) ≡ false
  unfolding select_process_of
  process_of-Calm v = ground arith

  ip_of-Calm : (v : SocketTableView t) → is_quit (select_ip_of t v) ≡ false
  unfolding select_ip_of
  ip_of-Calm v = ground arith

  main_key-Calm : (v : SocketTableView t) (c : KeyCode) → Calm (main_key t v c)
  unfolding main_key
  main_key-Calm v c = let h = process_of-Calm v in let k = ip_of-Calm v in ground arith

  process_key-Calm : (v : SocketTableView t) (c : KeyCode) → Calm (process_key t v c)
  unfolding process_key
  process_key-Calm v c = let k = ip_of-Calm v in ground arith

  remote_ip_key-Calm : (v : SocketTableView t) (c : KeyCode) → Calm (remote_ip_key t v c)
  unfolding remote_ip_key
  remote_ip_key-Calm v c = let h = process_of-Calm v in ground arith

  table_event-Calm :
      (keys : SocketTableView t → KeyCode → SocketTableView t × Option UiEvent)
      (h : (v : SocketTableView t) (c : KeyCode) → Calm (keys v c)) (v : SocketTableView t)
      (e : t.Event)
      → Calm (table_event t keys v e)
  unfolding table_event or_keys
  table_event-Calm keys h v e =
      go (t.key_code e) (SocketTableView.handle_event t v e) (table-Calm v e)
    where
      go :
          (c : Option KeyCode) (r : SocketTableView t × Option UiEvent)
          → Calm r
          → Calm (or_keys t keys c r)
      go c (w, some x) k = k
      go none (w, none) k = k
      go (some c) (w, none) k = h w c

  view_event-Calm : (v : RootView t) (e : t.Event) → Calm (view_event t v e)
  unfolding view_event
  view_event-Calm (main_view v) e = table_event-Calm (main_key t) main_key-Calm v.sock_table_view e
  view_event-Calm (process_view v) e =
      table_event-Calm (process_key t) process_key-Calm v.sock_table_view e
  view_event-Calm (remote_ip_view v) e =
      table_event-Calm (remote_ip_key t) remote_ip_key-Calm v.sock_table_view e

  -- A view whose keys answer a code answers an event with that code.
  answers :
      (keys : SocketTableView t → KeyCode → SocketTableView t × Option UiEvent) (c : KeyCode)
      (h : (v : SocketTableView t) → is_some (keys v c).1 ≡ true) (code : Option KeyCode)
      (r : SocketTableView t × Option UiEvent)
      → code ≡ some c
      → is_some (or_keys t keys code r).1 ≡ true
  unfolding or_keys
  answers keys c h code (w, some x) e = refl
  answers keys c h none (w, none) e = cc
  answers keys c h (some d) (w, none) e =
      subst (λ (k : Option KeyCode). is_some (or_keys t keys k (w, none)).1 ≡ true) (sym e) (h w)

  process_key-back :
      (v : SocketTableView t) → is_some (process_key t v (KeyCode.char b'q')).1 ≡ true
  unfolding process_key
  process_key-back v = refl

  remote_ip_key-back :
      (v : SocketTableView t) → is_some (remote_ip_key t v (KeyCode.char b'q')).1 ≡ true
  unfolding remote_ip_key
  remote_ip_key-back v = refl

  -- A view that leaves the key `q` unanswered is the main view.
  unanswered :
      (v : RootView t) (e : t.Event)
      → t.key_code e ≡ some (KeyCode.char b'q')
      → (view_event t v e).1 ≡ none
      → view_filter v ≡ unfiltered
  unfolding view_event table_event
  unanswered (main_view v) e q n = refl
  unanswered (process_view v) e q n =
      let some' =
        answers (process_key t) (KeyCode.char b'q') process_key-back (t.key_code e)
          (SocketTableView.handle_event t v.sock_table_view e) q in
      cc
  unanswered (remote_ip_view v) e q n =
      let some' =
        answers (remote_ip_key t) (KeyCode.char b'q') remote_ip_key-back (t.key_code e)
          (SocketTableView.handle_event t v.sock_table_view e) q in
      cc

  ui_event-Calm : (u : Ui t) (x : UiEvent) → is_quit (some x) ≡ false → Calm (ui_event t u x)
  unfolding ui_event
  ui_event-Calm u x h = ground arith

  ui_key-quit :
      (u : Ui t) (c : Option KeyCode)
      → is_quit (ui_key t u c).1 ≡ true
      → c ≡ some (KeyCode.char b'q')
  unfolding ui_key
  ui_key-quit u c h = ground arith

  after_view-quit :
      (u : Ui t) (c : Option KeyCode) (r : RootView t × Option UiEvent)
      → Calm r
      → is_quit (after_view t u c r).1 ≡ true
      → (c ≡ some (KeyCode.char b'q')) × (r.1 ≡ none)
  unfolding after_view
  after_view-quit u c (v, none) k h = (ui_key-quit (record u { view = v }) c h, refl)
  after_view-quit u c (v, some x) k h =
      absurd (false≢true (sym (ui_event-Calm (record u { view = v; dirty = true }) x k) ∙ h))

  -- The user interface answers an event with `Quit` only if that is the key `q`, in the main view.
  pub handle_event-quit :
      (u : Ui t) (e : t.Event)
      → is_quit (handle_event t u e).1 ≡ true
      → (t.key_code e ≡ some (KeyCode.char b'q')) × (view_filter u.view ≡ unfiltered)
  unfolding handle_event
  handle_event-quit u e h =
      let k =
        after_view-quit u (t.key_code e) (view_event t u.view e) (view_event-Calm u.view e) h in
      (k.0, unanswered u.view e k.0 k.1)
