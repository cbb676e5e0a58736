-- ===== src/Ui/RemoteIpDetails.antt =====
-- ptraf/src/ui/remote_ip_details.rs: the name of the host that the view of an address shows. The
-- look-up of the system, and the runtime that it runs in, are parameters; the widgets are left out.
pub mod Shown
mod Examples
use ptraf.Shared.{◌++◌, unwrap_or}
use ptraf.Shared.Results.{Result, ok, err}
use ptraf.Shared.Texts.{Text, codes}
use ptraf.Std.Ip.{IpAddr}
use ptraf.Promise.{Runtime, Promise, value, spawn}

-- `unwrap_or_else(|e| format!("[FAILED: {e}]"))`.
unfoldable pub host_name : Result Text Text → Text
host_name (ok name) = name
host_name (err e) = codes "[FAILED: " ++ (e ++ codes "]")

abbrev pub resolving : Text
resolving = codes "[RESOLVING]"

module _ (rt : Runtime Text) where
  pub record RemoteIpDetailsView : Type 0 where
    pub ip : IpAddr
    pub hostname : Promise rt.oneshot

  -- `dns_lookup::lookup_addr` is given by its results.
  unfoldable pub new : (IpAddr → Result Text Text) → IpAddr → RemoteIpDetailsView
  unfolding spawn host_name
  new lookup_addr ip = record { ip = ip; hostname = spawn rt (host_name (lookup_addr ip)) }

  -- A drawing asks for the name and shows a text in its place.
  unfoldable pub render : RemoteIpDetailsView → RemoteIpDetailsView × Text
  unfolding value
  render self =
      let r = value rt.oneshot self.hostname in
      (record self { hostname = r.0 }, unwrap_or r.1 resolving)
