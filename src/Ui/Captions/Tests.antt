-- ===== src/Ui/Captions/Tests.antt =====
-- The texts of the panels, evaluated.
use ptraf.Shared.{ℕ, ◌≡◌, refl, some, none, [], ◌∷◌}
use ptraf.Shared.Texts.{Text, codes}
use ptraf.Ui.Captions.{process_title}

abbrev digit : ℕ → Text
digit n = b'7' ∷ []

named : process_title digit (some (codes "sshd")) 7 ≡ codes "sshd (7)"
named = refl

unnamed : process_title digit none 7 ≡ codes "<PID 7>"
unnamed = refl
