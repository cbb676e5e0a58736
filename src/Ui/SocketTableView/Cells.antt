-- ===== src/Ui/SocketTableView/Cells.antt =====
-- ptraf/src/ui/socktable.rs, `SocketTableView::render`: the texts of the rows. How Rust and the
-- humantime crate write addresses, numbers and times is a parameter, as are procfs and the
-- floating-point numbers.
mod Names
use ptraf.Shared.{ℕ, ◌-◌, Option, List, [], ◌∷◌, map, back, and_then, unwrap_or}
use ptraf.Shared.Texts.{Text, codes}
use ptraf.Std.Ip.{SocketAddr}
use ptraf.Common.Types.{to_string}
use ptraf.Ui.Format.{Floats, format_rate}
use ptraf.Ui.ProcessDetails.{Procfs, as_i32}
use ptraf.Ui.SocketTable.{Entry, SocketTable}
use ptraf.Ui.Drawing.{rate_duration}

pub record Display : Type 0 where
  pub addr_text : SocketAddr → Text
  pub number_text : ℕ → Text
  pub human_duration : ℕ → Text

abbrev pub header : List Text
header =
    codes "local"
    ∷ codes "remote"
    ∷ codes "type"
    ∷ codes "last activity"
    ∷ codes "pid"
    ∷ codes "process"
    ∷ codes "rx/s"
    ∷ codes "tx/s"
    ∷ []

-- The last component of the path of the program, where it is there and is valid Unicode.
unfoldable pub pid_name : Procfs → ℕ → Text
pid_name os pid =
    let exe = and_then (os.new (as_i32 pid)) os.exe in
    unwrap_or (and_then (and_then exe (λ e. back (os.components e))) (λ name. name)) []

module _ (os : Procfs) (fl : Floats) (show : Display) where
  -- `now.duration_since(..).unwrap_or_default()` is 0 for an activity that is later than now.
  unfoldable pub cells : ℕ → Option ℕ → Entry → List Text
  unfolding pid_name format_rate to_string
  cells now rate_duration datapoint =
      show.addr_text datapoint.socket.local
      ∷ show.addr_text datapoint.socket.remote
      ∷ codes (to_string datapoint.socket.sock_type)
      ∷ show.human_duration (now - datapoint.last_activity)
      ∷ show.number_text datapoint.pid
      ∷ pid_name os datapoint.pid
      ∷ format_rate fl rate_duration datapoint.rate_stat.rx
      ∷ format_rate fl rate_duration datapoint.rate_stat.tx
      ∷ []

  unfoldable pub rows : ℕ → SocketTable → List (List Text)
  unfolding cells rate_duration
  rows now self = map (cells now (rate_duration self)) self.dataset
