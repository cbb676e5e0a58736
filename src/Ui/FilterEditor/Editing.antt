-- ===== src/Ui/FilterEditor/Editing.antt =====
-- ptraf/src/ui/filter_editor.rs: the filter in force and the text that spells it.
use ptraf.Shared.{
  ◌≡◌, ◌≢◌, ◌↔◌, is_some, refl, sym, ap, ◌∙◌, ◌⊎◌, inl, inr, Bool, true, false, Option, none, some,
  List, [], ◌∷◌, front, option_map, and_then, unwrap_or, Bool-cases, if_cases, arith, if◌then◌else◌,
}
use ptraf.Shared.Results.{Result, ok, err, ok_value, Result-cases}
use ptraf.Shared.Texts.{Text, non_empty}
use ptraf.Filter.Grammar.{parse, ParseError}
use ptraf.Filter.Interpretor.{Interpretor}
use ptraf.Ui.Filter.{CustomFilter, UiEvent, change, set_custom_filter}
use ptraf.Ui.Term.{Term, Input, Key, esc, enter}
use ptraf.Ui.FilterEditor.{
  FilterView, with_filter, committed_interpretor, set_editing, filtered, commit, abort, interpretor,
  is_valid, committed, transpose, update, accepts, aborts, edit, handle_input, handle_event,
}

-- A custom filter whose content is what its interpreter was parsed from.
pub record IsFilter (c : CustomFilter) : Type 0 where
  pub has_text : non_empty c.content ≡ true
  pub parses : parse c.content ≡ ok c.interpretor

abbrev pub AreFilters : Option CustomFilter → Type 0
AreFilters none = Unit {0}
AreFilters (some c) = IsFilter c

-- The draft that the first line of a text spells.
abbrev pub draft_of : List Text → Result (Option Interpretor) ParseError
draft_of ls = transpose (option_map parse (filtered (front ls)))

draft-committed :
    (c : Option CustomFilter)
    → AreFilters c
    → ok (option_map (λ (s : CustomFilter). s.interpretor) c)
      ≡ draft_of (unwrap_or (option_map (λ (s : CustomFilter). s.content) c) [] ∷ [])
draft-committed none h = refl
draft-committed (some c) h = rw (h.has_text, h.parses)

-- A draft that is an interpreter comes from a line that spells it.
draft_of-eq-some :
    (ls : List Text) (i : Interpretor)
    → draft_of ls ≡ ok (some i)
    → IsFilter (record { content = unwrap_or (filtered (front ls)) []; interpretor = i })
draft_of-eq-some [] i h = cc
draft_of-eq-some ([] ∷ ls) i h = cc
draft_of-eq-some ((c ∷ s) ∷ ls) i h = go (parse (c ∷ s)) refl h
  where
    go :
        (r : Result Interpretor ParseError)
        → parse (c ∷ s) ≡ r
        → transpose (some r) ≡ ok (some i)
        → IsFilter (record { content = c ∷ s; interpretor = i })
    go (ok j) e q = record { has_text = refl; parses = rw e (ap ok cc) }
    go (err x) e q = cc

draft_is :
    (r : Result (Option Interpretor) ParseError) (i : Interpretor)
    → and_then (ok_value r) (λ j. j) ≡ some i
    → r ≡ ok (some i)
draft_is r i h = ground arith

-- The inputs that accept a draft: Enter, and `m` with Control.
abbrev pub Accepts : Input → Type 0
Accepts i = (i.key ≡ enter) ⊎ ((i.key ≡ Key.char b'm') × (i.ctrl ≡ true))

accepts_iff : (i : Input) → (accepts i ≡ true) ↔ Accepts i
accepts_iff i = ground arith

aborts_iff : (i : Input) → (aborts i ≡ true) ↔ (i.key ≡ esc)
aborts_iff i = ground arith

module _ {t : Term} where
  -- The committed filter is what its content spells; so is the draft, while one is edited.
  pub record IsEditor (v : FilterView t) : Type 0 where
    pub committed : AreFilters v.committed_state
    pub drafted : v.editing ≡ true → v.draft_interpretor ≡ draft_of (t.lines v.textarea)

  pub with_filter-IsEditor : (c : Option CustomFilter) → AreFilters c → IsEditor (with_filter t c)
  unfolding with_filter
  with_filter-IsEditor c h = record { committed = h; drafted = λ e. cc }

  pub set_editing-IsEditor : (v : FilterView t) → IsEditor v → IsEditor (set_editing t v)
  unfolding set_editing
  set_editing-IsEditor v h = record {
    committed = h.committed;
    drafted = λ _.
        rw (t.lines-move_cursor_end _, t.lines-new_textarea _ [])
          (draft-committed v.committed_state h.committed);
  }

  abort-IsEditor : (v : FilterView t) → IsEditor v → IsEditor (abort t v)
  unfolding abort
  abort-IsEditor v h = record { committed = h.committed; drafted = λ e. cc }

  commit-IsEditor : (v : FilterView t) → IsEditor v → v.editing ≡ true → IsEditor (commit t v)
  unfolding commit
  commit-IsEditor v h on = record { committed = go _ refl; drafted = λ e. cc }
    where
      go :
          (o : Option Interpretor)
          → and_then (ok_value v.draft_interpretor) (λ i. i) ≡ o
          → AreFilters (committed t v o)
      go none e = tt
      go (some i) e =
          draft_of-eq-some (t.lines v.textarea) i
            (sym (h.drafted on) ∙ draft_is v.draft_interpretor i e)

  edit-IsEditor :
      (v : FilterView t) (i : Input) → IsEditor v → IsEditor (edit t v (t.input v.textarea i))
  unfolding edit update
  edit-IsEditor v i h = elim (Bool-cases (t.input v.textarea i).1) [
    | inl modified ↦ rw (modified, edit) (record { committed = h.committed; drafted = λ _. refl })
    | inr same ↦
        rw (same, edit)
          (record {
            committed = h.committed;
            drafted = λ on. rw (t.input_unmodified v.textarea i same) (h.drafted on);
          })
  ]

  handle_input-IsEditor :
      (v : FilterView t) (i : Input)
      → IsEditor v
      → v.editing ≡ true
      → IsEditor (handle_input t v i).0
  unfolding handle_input
  handle_input-IsEditor v i h on = elim (Bool-cases (aborts i)) [
    | inl escaped ↦ rw escaped (abort-IsEditor v h)
    | inr other ↦ rw other (elim (Bool-cases (accepts i)) [
      | inl entered ↦ rw entered (elim (Bool-cases (is_valid t v)) [
        | inl valid ↦ rw valid (commit-IsEditor v h on)
        | inr invalid ↦ rw invalid h
      ])
      | inr typed ↦ rw typed (edit-IsEditor v i h)
    ])
  ]

  -- Every event keeps what the editor promises.
  pub handle_event-IsEditor :
      (v : FilterView t) (e : t.Event) → IsEditor v → IsEditor (handle_event t v e).0
  unfolding handle_event
  handle_event-IsEditor v e h =
      if_cases (λ (r : FilterView t × Option UiEvent). IsEditor r.0) v.editing
        (λ on. handle_input-IsEditor v (t.input_of e) h on) (λ off. h)

  interpretor-editing :
      (v : FilterView t)
      → v.editing ≡ true
      → interpretor t v ≡ and_then (ok_value v.draft_interpretor) (λ i. i)
  unfolding interpretor
  interpretor-editing v on =
      ap
        (λ b.
          if b then and_then (ok_value v.draft_interpretor) (λ i. i) else committed_interpretor t v)
        on

  pub interpretor-commit :
      (v : FilterView t)
      → interpretor t (commit t v) ≡ and_then (ok_value v.draft_interpretor) (λ i. i)
  unfolding interpretor commit
  interpretor-commit v = go (and_then (ok_value v.draft_interpretor) (λ i. i))
    where
      go :
          (o : Option Interpretor)
          → option_map (λ (s : CustomFilter). s.interpretor) (committed t v o) ≡ o
      go none = refl
      go (some i) = refl

  edit_keeps :
      (v : FilterView t) (r : t.TextArea × Bool)
      → v.editing ≡ true
      → ((edit t v r).committed_state ≡ v.committed_state)
        × ((edit t v r).editing ≡ true)
        × ((edit t v r).textarea ≡ r.0)
  unfolding edit update
  edit_keeps v (area, true) on = (refl, on, refl)
  edit_keeps v (area, false) on = (refl, on, refl)

  -- While one edits, each key has its effect and no other. Escape gives the committed filter back
  -- and leaves the editing. Enter, or `m` with Control, where the first line spells a filter or is
  -- empty, commits that and tells the user interface; where it does not, it changes nothing. Any
  -- other input goes to the text area, leaves the committed filter as it is and goes on editing, and
  -- the draft is then what the new first line spells.
  pub handle_input_cases :
      (v : FilterView t) (i : Input)
      → IsEditor v
      → v.editing ≡ true
      → ((i.key ≡ esc)
          × (interpretor t (handle_input t v i).0 ≡ committed_interpretor t v)
          × ((handle_input t v i).0.committed_state ≡ v.committed_state)
          × ((handle_input t v i).0.editing ≡ false)
          × ((handle_input t v i).1 ≡ none))
        ⊎ (Accepts i
            × ((o : Option Interpretor) × (draft_of (t.lines v.textarea) ≡ ok o)
                × (interpretor t (handle_input t v i).0 ≡ o))
            × ((handle_input t v i).0.editing ≡ false)
            × ((handle_input t v i).1
                ≡ some (set_custom_filter (handle_input t v i).0.committed_state)))
        ⊎ (Accepts i
            × ((x : ParseError) × (draft_of (t.lines v.textarea) ≡ err x))
            × (handle_input t v i ≡ (v, none)))
        ⊎ ((i.key ≢ esc)
            × (¬ Accepts i)
            × ((handle_input t v i).0.textarea ≡ (t.input v.textarea i).0)
            × ((handle_input t v i).0.draft_interpretor
                ≡ draft_of (t.lines (t.input v.textarea i).0))
            × ((handle_input t v i).0.committed_state ≡ v.committed_state)
            × ((handle_input t v i).0.editing ≡ true)
            × ((handle_input t v i).1 ≡ some change))
  unfolding handle_input interpretor abort commit
  handle_input_cases v i h on = elim (Bool-cases (aborts i)) [
    | inl esc' ↦ inl ((aborts_iff i).0 esc', rw esc' refl, rw esc' refl, rw esc' refl, rw esc' refl)
    | inr other ↦ elim (Bool-cases (accepts i)) [
      | inr typed ↦
          let keeps = edit_keeps v (t.input v.textarea i) on in
          let drafted = (edit-IsEditor v i h).drafted keeps.1 in
          inr (
            inr (
              inr (
                (λ e. let y = (aborts_iff i).1 e in cc),
                (λ a. let y = (accepts_iff i).1 a in cc),
                rw (other, typed) keeps.2,
                rw (other, typed) (drafted ∙ ap (λ a. draft_of (t.lines a)) keeps.2),
                rw (other, typed) keeps.0,
                rw (other, typed) keeps.1,
                rw (other, typed) refl,
              )))
      | inl enter' ↦ elim (Result-cases v.draft_interpretor) [
        | inl (o, e) ↦
            let valid : is_valid t v ≡ true = ap (λ d. is_some (ok_value d)) e in
            inr (
              inl (
                (accepts_iff i).0 enter',
                (
                  o,
                  sym (h.drafted on) ∙ e,
                  rw (other, enter', valid)
                      (interpretor-commit v ∙ ap (λ d. and_then (ok_value d) (λ j. j)) e),
                ),
                rw (other, enter', valid) refl,
                rw (other, enter', valid) refl,
              ))
        | inr (x, e) ↦
            let invalid : is_valid t v ≡ false = ap (λ d. is_some (ok_value d)) e in
            inr (
              inr (
                inl (
                  (accepts_iff i).0 enter',
                  (x, sym (h.drafted on) ∙ e),
                  rw (other, enter', invalid) refl,
                )))
      ]
    ]
  ]
