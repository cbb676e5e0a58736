-- ===== src/Ui/FilterEditor/Title/Truthful.antt =====
-- ptraf/src/ui/filter_editor.rs: what the title of the editor says, and what Enter then does.
use ptraf.Shared.{
  ℕ, List, ◌≡◌, refl, sym, ap, ◌∙◌, ◌⊎◌, inl, inr, true, false, Option, some, none, ◌++◌, is_some,
  and_then,
}
use ptraf.Shared.Results.{ok, err, ok_value, Result-cases}
use ptraf.Filter.Grammar.{ParseError}
use ptraf.Filter.Interpretor.{Interpretor}
use ptraf.Ui.Filter.{set_custom_filter}
use ptraf.Ui.Term.{Term, Input}
use ptraf.Ui.FilterEditor.{FilterView, interpretor, accepts, aborts, handle_input}
use ptraf.Ui.FilterEditor.Editing.{IsEditor, draft_of, interpretor-commit}
use ptraf.Ui.FilterEditor.Title.{
  light_green, light_red, accept_title, error_label, draft_title, title,
}

module _ {t : Term} where
  -- Enter on a draft that is valid commits it, and tells the user interface.
  accepted :
      (v : FilterView t) (i : Input) (o : Option Interpretor)
      → aborts i ≡ false
      → accepts i ≡ true
      → v.draft_interpretor ≡ ok o
      → ((handle_input t v i).1 ≡ some (set_custom_filter (handle_input t v i).0.committed_state))
        × (interpretor t (handle_input t v i).0 ≡ o)
  unfolding handle_input
  accepted v i o other enter e =
      rw (other, enter, ap (λ d. is_some (ok_value d)) e)
        (refl, interpretor-commit v ∙ ap (λ d. and_then (ok_value d) (λ j. j)) e)

  refused :
      (v : FilterView t) (i : Input) (e : ParseError)
      → aborts i ≡ false
      → accepts i ≡ true
      → v.draft_interpretor ≡ err e
      → handle_input t v i ≡ (v, none)
  unfolding handle_input
  refused v i e other enter h = rw (other, enter, ap (λ d. is_some (ok_value d)) h) refl

  title-editing :
      (error_text : ParseError → List ℕ) (v : FilterView t)
      → v.editing ≡ true
      → title t error_text v ≡ draft_title t error_text v.draft_interpretor
  unfolding title
  title-editing error_text v on = rw on refl

  -- While one edits, either the text spells a filter or is empty, the title offers to accept it, and
  -- Enter commits what it spells and tells the user interface; or it does not, the title shows the
  -- error of the parser, and Enter does nothing.
  pub title-handle_input :
      (error_text : ParseError → List ℕ) (v : FilterView t) (i : Input)
      → IsEditor v
      → v.editing ≡ true
      → aborts i ≡ false
      → accepts i ≡ true
      → ((o : Option Interpretor) × (draft_of (t.lines v.textarea) ≡ ok o)
          × (title t error_text v ≡ (light_green, accept_title))
          × ((handle_input t v i).1
              ≡ some (set_custom_filter (handle_input t v i).0.committed_state))
          × (interpretor t (handle_input t v i).0 ≡ o))
        ⊎ ((e : ParseError) × (draft_of (t.lines v.textarea) ≡ err e)
            × (title t error_text v ≡ (light_red, error_label ++ error_text e))
            × (handle_input t v i ≡ (v, none)))
  unfolding draft_title
  title-handle_input error_text v i h on other enter = elim (Result-cases v.draft_interpretor) [
    | inl (o, e) ↦ inl (
      o,
      sym (h.drafted on) ∙ e,
      title-editing error_text v on ∙ ap (draft_title t error_text) e,
      (accepted v i o other enter e).0,
      (accepted v i o other enter e).1,
    )
    | inr (e, q) ↦ inr (
      e,
      sym (h.drafted on) ∙ q,
      title-editing error_text v on ∙ ap (draft_title t error_text) q,
      refused v i e other enter q,
    )
  ]
