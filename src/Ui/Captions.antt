-- ===== src/Ui/Captions.antt =====
-- ptraf/src/ui.rs, ptraf/src/ui/process_details.rs and ptraf/src/ui/remote_ip_details.rs: the texts of
-- the footer and of the panels of a process and of an address, with procfs, the runtime and the
-- way Rust writes numbers and addresses as parameters.
mod Tests
use ptraf.Shared.{ℕ, Bool, Option, some, none, List, [], ◌∷◌, ◌++◌, if◌then◌else◌, unwrap_or}
use ptraf.Shared.Texts.{Text, codes}
use ptraf.Std.Ip.{IpAddr}
use ptraf.Promise.{Runtime}
use ptraf.Ui.ProcessDetails.{Procfs, ProcessDetails, established_tcp, established_udp}
use ptraf.Ui.RemoteIpDetails.{RemoteIpDetailsView, render}

-- `FooterBar::render`.
unfoldable footer : Bool → Text
footer paused =
    if paused
    then codes
        " PAUSED (press SpaceBar to run) -- UP/DOWN: k/j, - FILTERS: p (process), r (remote IP) - QUIT/BACK: q"
    else codes
        " RUNNING (press SpaceBar to pause) -- UP/DOWN: k/j, - FILTERS: p (process), r (remote IP) - QUIT/BACK: q"

-- A panel: its title, and its lines as a label and what stands behind it.
record Panel : Type 0 where
  title : Text
  lines : List (Text × Text)

abbrev process_title : (ℕ → Text) → Option Text → ℕ → Text
process_title number_text (some name) pid = name ++ codes " (" ++ number_text pid ++ codes ")"
process_title number_text none pid = codes "<PID " ++ number_text pid ++ codes ">"

-- `ProcessDetailsView::render`.
unfoldable process_panel : Procfs → (ℕ → Text) → ℕ → ProcessDetails → Panel
unfolding established_tcp established_udp
process_panel os number_text pid details = record {
  title = process_title number_text details.name pid;
  lines =
      (codes "exe ", unwrap_or details.exe [])
      ∷ (codes "established tcp conns: ", number_text (established_tcp os details))
      ∷ (codes "established udp conns: ", number_text (established_udp os details))
      ∷ [];
}

-- `RemoteIpDetailsView::render`.
unfoldable address_panel :
    (rt : Runtime Text) → (IpAddr → Text) → RemoteIpDetailsView rt → RemoteIpDetailsView rt × Panel
unfolding render
address_panel rt ip_text self =
    let r = render rt self in
    (
      r.0,
      record {
        title = codes "remote IP: " ++ ip_text self.ip;
        lines = (codes "hostname: ", r.1) ∷ [];
      },
    )
