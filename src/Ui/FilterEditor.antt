-- ===== src/Ui/FilterEditor.antt =====
-- ptraf/src/ui/filter_editor.rs: the editor of the custom filter.
pub mod Editing
pub mod Title
use ptraf.Shared.{
  ℕ, ◌≡◌, Bool, true, false, Option, none, some, List, [], ◌∷◌, front, option_map, and_then,
  unwrap_or, is_some, ◌==◌, if◌then◌else◌,
}
use ptraf.Shared.Results.{Result, ok, err, ok_value}
use ptraf.Shared.Texts.{Text, non_empty}
use ptraf.Filter.Grammar.{parse, ParseError}
use ptraf.Filter.Interpretor.{Interpretor}
use ptraf.Ui.Filter.{CustomFilter, UiEvent, change, set_custom_filter}
use ptraf.Ui.Term.{Term, Key, Input, esc, enter}

pub record FilterView (t : Term) : Type 0 where
  pub committed_state : Option CustomFilter
  pub draft_interpretor : Result (Option Interpretor) ParseError
  pub textarea : t.TextArea
  pub editing : Bool

-- An empty line is no content.
abbrev pub filtered : Option Text → Option Text
filtered none = none
filtered (some s) = if non_empty s then some s else none

-- `int.take()` leaves `None` behind.
abbrev pub taken : Result (Option Interpretor) ParseError → Result (Option Interpretor) ParseError
taken (ok i) = ok none
taken (err e) = err e

-- `Option<Result<_, _>>::transpose`.
abbrev pub transpose :
    Option (Result Interpretor ParseError) → Result (Option Interpretor) ParseError
transpose none = ok none
transpose (some (ok i)) = ok (some i)
transpose (some (err e)) = err e

-- What the match on an input tells apart.
abbrev pub accepts : Input → Bool
accepts i = elim i.key [
  | enter ↦ true
  | Key.char c ↦ if i.ctrl then c == b'm' else false
  | _ ↦ false
]

abbrev pub aborts : Input → Bool
aborts i = elim i.key [ esc ↦ true | _ ↦ false ]

module _ (t : Term) where
  unfoldable pub default : FilterView t
  default = record {
    committed_state = none;
    draft_interpretor = ok none;
    textarea = t.default_textarea;
    editing = false;
  }

  unfoldable pub with_filter : Option CustomFilter → FilterView t
  with_filter filter = record {
    committed_state = filter;
    draft_interpretor = ok none;
    textarea = t.default_textarea;
    editing = false;
  }

  abbrev pub committed_content : FilterView t → Option Text
  committed_content self = option_map (λ (s : CustomFilter). s.content) self.committed_state

  abbrev pub committed_interpretor : FilterView t → Option Interpretor
  committed_interpretor self = option_map (λ (s : CustomFilter). s.interpretor) self.committed_state

  -- The text area with the content of the committed filter, or with an empty line.
  abbrev committed_textarea : FilterView t → t.TextArea
  committed_textarea self = t.new_textarea (unwrap_or (committed_content self) [] ∷ [])

  unfoldable pub set_editing : FilterView t → FilterView t
  set_editing self = record self {
    editing = true;
    draft_interpretor = ok (committed_interpretor self);
    textarea = t.move_cursor_end (committed_textarea self);
  }

  abbrev committed : FilterView t → Option Interpretor → Option CustomFilter
  committed self none = none
  committed self (some i) = some (record {
    content = unwrap_or (filtered (front (t.lines self.textarea))) [];
    interpretor = i;
  })

  unfoldable pub commit : FilterView t → FilterView t
  commit self = record self {
    editing = false;
    committed_state = committed self (and_then (ok_value self.draft_interpretor) (λ i. i));
    draft_interpretor = taken self.draft_interpretor;
  }

  unfoldable pub abort : FilterView t → FilterView t
  abort self = record self {
    editing = false;
    draft_interpretor = ok none;
    textarea = committed_textarea self;
  }

  -- The filter in force: the draft while one is edited, and then none where it does not parse.
  unfoldable pub interpretor : FilterView t → Option Interpretor
  interpretor self =
      if self.editing
      then and_then (ok_value self.draft_interpretor) (λ i. i)
      else committed_interpretor self

  abbrev pub is_valid : FilterView t → Bool
  is_valid self = is_some (ok_value self.draft_interpretor)

  abbrev pub draft_content : FilterView t → Option Text
  draft_content self = filtered (front (t.lines self.textarea))

  unfoldable pub update : FilterView t → FilterView t
  update self = record self {
    draft_interpretor = transpose (option_map parse (draft_content self));
  }

  -- An input goes to the text area; the draft is parsed anew where the text changed.
  unfoldable pub edit : FilterView t → t.TextArea × Bool → FilterView t
  unfolding update
  edit self (area, true) = update (record self { textarea = area })
  edit self (area, false) = record self { textarea = area }

  unfoldable pub handle_input : FilterView t → Input → FilterView t × Option UiEvent
  unfolding abort commit edit
  handle_input self i =
      if aborts i
      then (abort self, none)
      else if accepts i
      then (if is_valid self
          then (commit self, some (set_custom_filter (commit self).committed_state))
          else (self, none))
      else (edit self (t.input self.textarea i), some change)

  unfoldable pub handle_event : FilterView t → t.Event → FilterView t × Option UiEvent
  unfolding handle_input
  handle_event self event =
      if self.editing then handle_input self (t.input_of event) else (self, none)
