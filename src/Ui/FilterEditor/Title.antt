-- ===== src/Ui/FilterEditor/Title.antt =====
-- ptraf/src/ui/filter_editor.rs, `FilterView::render`: the title of the editor and the style of its
-- text. How the parser words its error is a parameter; the rest of the widget is left out.
mod Truthful
mod Examples
use ptraf.Shared.{Option, ◌++◌, if◌then◌else◌}
use ptraf.Shared.Results.{Result, ok, err}
use ptraf.Shared.Texts.{Text, codes}
use ptraf.Filter.Grammar.{ParseError}
use ptraf.Filter.Interpretor.{Interpretor}
use ptraf.Ui.Term.{Term}
use ptraf.Ui.FilterEditor.{FilterView}

-- The foreground colour of the text.
pub data Colour : Type 0 where
  light_green light_red default_colour : Colour

abbrev pub accept_title : Text
accept_title = codes "OK - accept: Enter abort: Esc"

abbrev pub error_label : Text
error_label = codes "ERROR: "

abbrev pub idle_title : Text
idle_title = codes "Filter (press '/'), ex: \"udp and (rport[443] or rport[80]) and ipv6\""

module _ (t : Term) (error_text : ParseError → Text) where
  -- While one edits, the title says whether the draft is valid.
  unfoldable pub draft_title : Result (Option Interpretor) ParseError → Colour × Text
  draft_title (ok _) = (light_green, accept_title)
  draft_title (err e) = (light_red, error_label ++ error_text e)

  unfoldable pub title : FilterView t → Colour × Text
  unfolding draft_title
  title self =
      if self.editing then draft_title self.draft_interpretor else (default_colour, idle_title)
