-- ===== src/Ui/ProcessDetails.antt =====
-- ptraf/src/ui/process_details.rs: what the view of a process shows of it. The procfs crate and the
-- paths of the operating system are parameters; whatever they fail to read is `none`. Drawing is
-- left out: the shown values are functions of the process.
pub mod Counting
mod Examples
use ptraf.Shared.{
  ℕ, ◌-◌, Bool, true, false, ◌&&◌, Option, some, none, List, [], ◌∷◌, ◌++◌, keep, any, length, back,
  option_map, and_then, unwrap_or, ltb, ◌==◌, if◌then◌else◌,
}
use ptraf.Shared.Int.{ℤ, pos, negsuc}
use ptraf.Shared.Texts.{Text}

-- What an open file of a process is: a socket with an inode, or something else.
pub data FdTarget : Type 0 where
  socket : ℕ → FdTarget
  other : FdTarget

-- An entry of a table of connections: whether its state is `Established`, and the inode of its
-- socket.
pub record NetEntry : Type 0 where
  pub established : Bool
  pub inode : ℕ

pub record Procfs : Type 1 where
  pub Process : Type 0
  pub ExePath : Type 0
  pub new : ℤ → Option Process
  pub pid : Process → ℤ
  pub fd : Process → Option (List (Option FdTarget))
  pub tcp : Process → Option (List NetEntry)
  pub tcp6 : Process → Option (List NetEntry)
  pub udp : Process → Option (List NetEntry)
  pub udp6 : Process → Option (List NetEntry)
  pub exe : Process → Option ExePath
  -- The whole path and its components, each where it is valid Unicode.
  pub to_str : ExePath → Option Text
  pub components : ExePath → List (Option Text)

pub record ProcessDetails : Type 0 where
  pub pid : ℤ
  pub name : Option Text
  pub exe : Option Text

-- `pid as i32` of a `u32`.
abbrev pub as_i32 : ℕ → ℤ
as_i32 n = if ltb n 2147483648 then pos n else negsuc (4294967295 - n)

-- An iterator over what may be missing: `Option::into_iter().flatten()`.
abbrev pub entries {ℓ} : {A : Type ℓ} → Option (List A) → List A
entries o = unwrap_or o []

abbrev pub flatten {ℓ} : {A : Type ℓ} → List (Option A) → List A
flatten [] = []
flatten (none ∷ xs) = flatten xs
flatten (some x ∷ xs) = x ∷ flatten xs

abbrev pub is_socket : FdTarget → Bool
is_socket (socket inode) = true
is_socket other = false

abbrev inode_of : FdTarget → List ℕ
inode_of (socket inode) = inode ∷ []
inode_of other = []

abbrev pub inodes_of : List FdTarget → List ℕ
inodes_of [] = []
inodes_of (t ∷ ts) = inode_of t ++ inodes_of ts

abbrev pub empty : ℤ → ProcessDetails
empty pid = record { pid = pid; name = none; exe = none }

module _ (os : Procfs) where
  abbrev pub process : ProcessDetails → Option os.Process
  process self = os.new self.pid

  unfoldable pub fd_sockets : ProcessDetails → List FdTarget
  fd_sockets self = keep is_socket (flatten (entries (and_then (process self) os.fd)))

  unfoldable pub socket_inodes : ProcessDetails → List ℕ
  unfolding fd_sockets
  socket_inodes self = inodes_of (fd_sockets self)

  unfoldable pub tcp_conns : ProcessDetails → List NetEntry
  tcp_conns self =
      entries (option_map (λ p. entries (os.tcp p) ++ entries (os.tcp6 p)) (process self))

  unfoldable pub udp_conns : ProcessDetails → List NetEntry
  udp_conns self =
      entries (option_map (λ p. entries (os.udp p) ++ entries (os.udp6 p)) (process self))

  unfoldable pub from_procfs : os.Process → ProcessDetails
  from_procfs p =
      let exe = os.exe p in
      record {
        pid = os.pid p;
        exe = and_then exe os.to_str;
        name = and_then (and_then exe (λ e. back (os.components e))) (λ name. name);
      }

  unfoldable pub from_procfs_pid : ℤ → ProcessDetails
  unfolding from_procfs
  from_procfs_pid pid = unwrap_or (option_map from_procfs (os.new pid)) (empty pid)

  -- `ProcessDetailsView::new` keeps these details.
  unfoldable pub new : ℕ → ProcessDetails
  unfolding from_procfs_pid
  new pid = from_procfs_pid (as_i32 pid)

-- The established connections whose socket the process has open, counted.
abbrev pub established_of : List ℕ → List NetEntry → List NetEntry
established_of inodes conns = keep (λ c. c.established && any (λ i. i == c.inode) inodes) conns

-- The numbers that `ProcessDetailsView::render` shows.
unfoldable pub established_tcp : (os : Procfs) → ProcessDetails → ℕ
unfolding socket_inodes tcp_conns
established_tcp os self = length (established_of (socket_inodes os self) (tcp_conns os self))

unfoldable pub established_udp : (os : Procfs) → ProcessDetails → ℕ
unfolding socket_inodes udp_conns
established_udp os self = length (established_of (socket_inodes os self) (udp_conns os self))
