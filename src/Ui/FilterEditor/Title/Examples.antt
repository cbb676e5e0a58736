-- ===== src/Ui/FilterEditor/Title/Examples.antt =====
-- The title of the editor, with a draft that is no filter.
use ptraf.Shared.{◌≡◌, refl, ◌⊎◌, Option, some, none, ◌++◌, true, false}
use ptraf.Shared.Results.{ok, err}
use ptraf.Shared.Texts.{Text, codes}
use ptraf.Filter.Grammar.{ParseError, parse}
use ptraf.Filter.Interpretor.{Interpretor}
use ptraf.Ui.Filter.{set_custom_filter}
use ptraf.Ui.Term.{simple_term, Input, Key, KeyCode}
use ptraf.Ui.FilterEditor.{FilterView, interpretor, handle_input, handle_event, set_editing}
use ptraf.Ui.FilterEditor
use ptraf.Ui.FilterEditor.Editing.{
  IsEditor, draft_of, handle_event-IsEditor, set_editing-IsEditor, with_filter-IsEditor,
}
use ptraf.Ui.FilterEditor.Title.{light_green, light_red, accept_title, error_label, title}
use ptraf.Ui.FilterEditor.Title.Truthful.{title-handle_input}

abbrev empty_editor : FilterView simple_term
empty_editor = set_editing simple_term (FilterEditor.with_filter simple_term none)

abbrev typed : KeyCode × Input
typed = (KeyCode.char b't', record { key = Key.char b't'; ctrl = false })

abbrev editor : FilterView simple_term
editor = (handle_event simple_term empty_editor typed).0

editor-IsEditor : IsEditor editor
editor-IsEditor = handle_event-IsEditor empty_editor typed (
    set_editing-IsEditor (FilterEditor.with_filter simple_term none) (with_filter-IsEditor none tt))

editor_editing : editor.editing ≡ true
unfolding handle_event set_editing FilterEditor.with_filter
editor_editing = refl

abbrev message : ParseError → Text
message e = codes "unexpected"

abbrev enter : Input
enter = record { key = Key.enter; ctrl = false }

title_test : title simple_term message editor ≡ (light_red, codes "ERROR: unexpected")
unfolding title handle_event set_editing FilterEditor.with_filter parse
title_test = refl

title-handle_input_example :
    ((o : Option Interpretor) × (draft_of editor.textarea ≡ ok o)
      × (title simple_term message editor ≡ (light_green, accept_title))
      × ((handle_input simple_term editor enter).1
          ≡ some (set_custom_filter (handle_input simple_term editor enter).0.committed_state))
      × (interpretor simple_term (handle_input simple_term editor enter).0 ≡ o))
    ⊎ ((e : ParseError) × (draft_of editor.textarea ≡ err e)
        × (title simple_term message editor ≡ (light_red, error_label ++ message e))
        × (handle_input simple_term editor enter ≡ (editor, none)))
title-handle_input_example =
    title-handle_input message editor enter editor-IsEditor editor_editing refl refl
