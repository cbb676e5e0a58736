-- ===== src/Ui/Filter.antt =====
-- ptraf/src/ui.rs: the filter of a view, and the custom filter of the user.
use ptraf.Shared.{ℕ, Bool, true, false, Option, ◌==◌}
use ptraf.Shared.Texts.{Text}
use ptraf.Std.Ip.{IpAddr, ip_eq}
use ptraf.Store.Socket.{Interest}
use ptraf.Filter.Interpretor.{Interpretor}

pub data Filter : Type 0 where
  unfiltered : Filter
  process : ℕ → Filter
  remote_ip : IpAddr → Filter

-- `Filter::interest`.
unfoldable pub interest : Filter → Interest
interest unfiltered = Interest.all
interest (process p) = Interest.pid p
interest (remote_ip ip) = Interest.remote_ip ip

abbrev pub filter_eq : Filter → Filter → Bool
filter_eq unfiltered unfiltered = true
filter_eq (process p) (process q) = p == q
filter_eq (remote_ip a) (remote_ip b) = ip_eq a b
filter_eq _ _ = false

pub record CustomFilter : Type 0 where
  pub content : Text
  pub interpretor : Interpretor

-- The events of the user interface.
pub data UiEvent : Type 0 where
  quit change go_back : UiEvent
  select_process : ℕ → UiEvent
  select_remote_ip : IpAddr → UiEvent
  set_custom_filter : Option CustomFilter → UiEvent
