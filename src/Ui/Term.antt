-- ===== src/Ui/Term.antt =====
-- The packages that the user interface is built on, as far as its logic uses them: the events of
-- `crossterm` and the text area of `tui_textarea`, with what their documentation says.
use ptraf.Shared.{ℕ, ◌≡◌, refl, Bool, true, false, Option, some, List, [], ◌∷◌, arith}
use ptraf.Shared.Texts.{Text}

-- `crossterm::event::KeyCode`; `other_code` stands for the codes that the program never names.
pub data KeyCode : Type 0 where
  char : ℕ → KeyCode
  up down enter backspace : KeyCode
  other_code : ℕ → KeyCode

-- `tui_textarea::Key`.
pub data Key : Type 0 where
  char : ℕ → Key
  enter esc : Key
  other_key : ℕ → Key

-- `tui_textarea::Input`, without the modifier that the program does not read.
pub record Input : Type 0 where
  pub key : Key
  pub ctrl : Bool

pub record Term : Type 1 where
  pub Event : Type 0
  -- The code of a key event.
  pub key_code : Event → Option KeyCode
  -- `Input::from(event)`.
  pub input_of : Event → Input
  pub TextArea : Type 0
  pub default_textarea : TextArea
  pub new_textarea : List Text → TextArea
  pub move_cursor_end : TextArea → TextArea
  pub lines : TextArea → List Text
  -- `TextArea::input` says whether it modified the text.
  pub input : TextArea → Input → TextArea × Bool
  pub lines-new_textarea : (l : Text) (ls : List Text) → lines (new_textarea (l ∷ ls)) ≡ l ∷ ls
  pub lines-move_cursor_end : (t : TextArea) → lines (move_cursor_end t) ≡ lines t
  pub input_unmodified :
      (t : TextArea) (i : Input) → (input t i).1 ≡ false → lines (input t i).0 ≡ lines t

-- A text area that keeps its lines: what is typed goes before the first line's text.
abbrev typed : List Text → Key → List Text × Bool
typed (l ∷ ls) (char c) = ((c ∷ l) ∷ ls, true)
typed ls k = (ls, false)

pub typed_unmodified : (ls : List Text) (k : Key) → (typed ls k).1 ≡ false → (typed ls k).0 ≡ ls
typed_unmodified ls k h = ground arith

abbrev pub simple_term : Term
simple_term = record {
  Event = KeyCode × Input;
  key_code = λ e. some e.0;
  input_of = λ e. e.1;
  TextArea = List Text;
  default_textarea = [] ∷ [];
  new_textarea = λ ls. ls;
  move_cursor_end = λ t. t;
  lines = λ t. t;
  input = λ t i. typed t i.key;
  lines-new_textarea = λ l ls. refl;
  lines-move_cursor_end = λ t. refl;
  input_unmodified = λ t i h. typed_unmodified t i.key h;
}
