-- ===== src/Probe.antt =====
-- ptraf-ebpf/src/ptraf-ebpf.rs: the probes in the kernel. The memory of the kernel, the context of
-- a probe and the hash map of the BPF runtime are parameters; pointers are numbers.
pub mod Threads
pub mod Addresses
pub mod Examples
use ptraf.Shared.{
  ℕ, ◌/◌, ◌%◌, ◌≡◌, Bool, true, false, ◌||◌, Option, none, some, List, [], ◌∷◌, ◌++◌, ◌==◌,
  if◌then◌else◌, option_map,
}
use ptraf.Shared.Int.{ℤ, pos}
use ptraf.Shared.Results.{Result, ok, err}
use ptraf.Common.Types.{Channel, tx, rx, Words, BpfIpAddr, ip_v4, ip_v6, SockMsgEvent, from_u16}

-- The parts of `sock_common` that the probes read.
pub record SockCommon : Type 0 where
  pub skc_portpair : ℕ
  pub skc_family : ℕ
  pub skc_rcv_saddr : ℕ
  pub skc_daddr : ℕ
  pub skc_v6_rcv_saddr : Words
  pub skc_v6_daddr : Words

-- `bpf_probe_read_kernel` at the addresses of `(*socket).sk`, `(*sk).__sk_common`, `(*sk).sk_type`.
pub record Kernel : Type 0 where
  pub read_sk : ℕ → Result ℕ ℤ
  pub read_common : ℕ → Result SockCommon ℤ
  pub read_type : ℕ → Result ℕ ℤ

-- What a probe reads of its context.
pub record Context : Type 0 where
  pub pid_tgid : ℕ
  pub pid : ℕ
  pub arg : Option ℕ
  pub ret : Option ℤ

-- `aya_bpf::maps::HashMap<u64, *const Socket>`; an insertion fails where the map is full. A look-up
-- gives a pointer to a slot of the map, and reading it gives what the slot holds then. The slot of a
-- removed entry keeps its contents until something is inserted, which may take the slot.
pub record CacheMap : Type 1 where
  pub Map : Type 0
  pub Slot : Type 0
  pub get : Map → ℕ → Option Slot
  pub deref : Map → Slot → ℕ
  pub insert : Map → ℕ → ℕ → Result Map ℤ
  pub remove : Map → ℕ → Map
  pub get-insert :
      (m n : Map) (k v j : ℕ)
      → insert m k v ≡ ok n
      → option_map (deref n) (get n j) ≡ (if k == j then some v else option_map (deref m) (get m j))
  pub get-remove :
      (m : Map) (k j : ℕ)
      → option_map (deref (remove m k)) (get (remove m k) j)
        ≡ (if k == j then none else option_map (deref m) (get m j))
  pub deref-remove : (m : Map) (k : ℕ) (s : Slot) → deref (remove m k) s ≡ deref m s

-- The value of a key, if it has one.
abbrev pub value : (c : CacheMap) → c.Map → ℕ → Option ℕ
value c m k = option_map (c.deref m) (c.get m k)

-- `CACHE`, and what `EVENTS` has been sent.
pub record Probe (c : CacheMap) : Type 0 where
  pub cache : c.Map
  pub events : List SockMsgEvent

abbrev pub af_inet : ℕ
af_inet = 2

abbrev pub af_inet6 : ℕ
af_inet6 = 10

abbrev pub is_inet : ℕ → Bool
is_inet family = (family == af_inet) || (family == af_inet6)

-- The two addresses of a socket, none if it is not of the internet families.
unfoldable pub addresses : SockCommon → Option (BpfIpAddr × BpfIpAddr)
unfolding ip_v4 ip_v6
addresses c =
    if c.skc_family == af_inet
    then some (ip_v4 c.skc_rcv_saddr, ip_v4 c.skc_daddr)
    else if c.skc_family == af_inet6
    then some (ip_v6 c.skc_v6_rcv_saddr, ip_v6 c.skc_v6_daddr)
    else none

unfoldable pub event_of :
    Context → SockCommon → ℕ → ℤ → Channel → BpfIpAddr × BpfIpAddr → SockMsgEvent
unfolding from_u16
event_of ctx c sk_type ret channel addrs = record {
  sock_type = from_u16 sk_type;
  pid = ctx.pid;
  local_addr = addrs.0;
  remote_addr = addrs.1;
  ret = ret;
  local_port = c.skc_portpair / 65536 % 65536;
  remote_port = c.skc_portpair % 65536;
  channel = channel;
}

-- `unwrap_or(1)` and `map(|_| 0)` at the probes' ends.
abbrev pub status : Result ℕ ℤ → ℕ
status (ok n) = n
status (err e) = 1

module _ (c : CacheMap) (kernel : Kernel) where
  abbrev pub sent : Probe c → Option SockMsgEvent → Probe c
  sent self none = self
  sent self (some e) = record self { events = self.events ++ e ∷ [] }

  abbrev event_if :
      Context → SockCommon → ℕ → ℤ → Channel → Option (BpfIpAddr × BpfIpAddr) → Option SockMsgEvent
  event_if ctx common sk_type ret channel none = none
  event_if ctx common sk_type ret channel (some addrs) =
      some (event_of ctx common sk_type ret channel addrs)

  -- What `notify` sends, if it can read the socket.
  unfoldable pub notification : Context → ℕ → ℤ → Channel → Result (Option SockMsgEvent) ℤ
  unfolding addresses event_of
  notification ctx sk ret channel = read (kernel.read_common sk) (kernel.read_type sk)
    where
      read : Result SockCommon ℤ → Result ℕ ℤ → Result (Option SockMsgEvent) ℤ
      read (err e) t = err e
      read (ok common) (err e) = err e
      read (ok common) (ok sk_type) =
          ok (event_if ctx common sk_type ret channel (addresses common))

  unfoldable pub notify : Probe c → Context → ℕ → ℤ → Channel → Probe c × Result ℕ ℤ
  unfolding notification
  notify self ctx sk ret channel = send (notification ctx sk ret channel)
    where
      send : Result (Option SockMsgEvent) ℤ → Probe c × Result ℕ ℤ
      send (err e) = (self, err e)
      send (ok o) = (sent self o, ok 0)

  -- The errors of `notify` become 1.
  abbrev one_error : Probe c × Result ℕ ℤ → Probe c × Result ℕ ℤ
  one_error (self, ok n) = (self, ok 0)
  one_error (self, err e) = (self, err (pos 1))

  -- `try_msg_ret` looks its thread's entry up and removes it, and then reads the slot. What other
  -- processors do comes in between. The look-up and the removal are one step, since only the thread
  -- itself inserts or removes its entry.
  unfoldable pub take_entry : Probe c → Context → Probe c × Option c.Slot
  take_entry self ctx = elim (c.get self.cache ctx.pid_tgid) [
    | none ↦ (self, none)
    | some slot ↦ (record self { cache = c.remove self.cache ctx.pid_tgid }, some slot)
  ]

  -- The rest of `try_msg_ret`: the slot is read once its entry has been removed.
  unfoldable pub report : Probe c → Context → Channel → Option c.Slot → Probe c × Result ℕ ℤ
  unfolding notify
  report self ctx channel entry = found entry
    where
      reported : ℤ → Result ℕ ℤ → Probe c × Result ℕ ℤ
      reported val (err e) = (self, err e)
      reported val (ok sk) = one_error (notify self ctx sk val channel)

      returned : ℕ → Option ℤ → Probe c × Result ℕ ℤ
      returned socket none = (self, err (pos 1))
      returned socket (some val) = reported val (kernel.read_sk socket)

      found : Option c.Slot → Probe c × Result ℕ ℤ
      found none = (self, ok 0)
      found (some slot) = returned (c.deref self.cache slot) ctx.ret

  unfoldable pub try_msg_ret : Probe c → Context → Channel → Probe c × Result ℕ ℤ
  unfolding take_entry report
  try_msg_ret self ctx channel =
      let taken = take_entry self ctx in report taken.0 ctx channel taken.1

  -- The cache after an insertion; its error is the probe's.
  unfoldable pub inserted : Probe c → Result c.Map ℤ → Probe c × Result ℕ ℤ
  inserted self (err e) = (self, err e)
  inserted self (ok m) = (record self { cache = m }, ok 0)

  unfoldable pub try_msg : Probe c → Context → Probe c × Result ℕ ℤ
  unfolding inserted
  try_msg self ctx = with_arg ctx.arg
    where
      with_common : ℕ → Result SockCommon ℤ → Probe c × Result ℕ ℤ
      with_common socket (err e) = (self, err e)
      with_common socket (ok common) =
          if is_inet common.skc_family
          then inserted self (c.insert self.cache ctx.pid_tgid socket)
          else (self, ok 0)

      with_sk : ℕ → Result ℕ ℤ → Probe c × Result ℕ ℤ
      with_sk socket (err e) = (self, err e)
      with_sk socket (ok sk) = with_common socket (kernel.read_common sk)

      with_arg : Option ℕ → Probe c × Result ℕ ℤ
      with_arg none = (self, err (pos 1))
      with_arg (some socket) = with_sk socket (kernel.read_sk socket)

  -- The fields of the tracepoint's arguments that its probe uses are the socket and the family.
  unfoldable pub inet_sock_set_state : Probe c → Context → ℕ → ℕ → Probe c × ℕ
  unfolding notify
  inet_sock_set_state self ctx skaddr family =
      if is_inet family
      then ((notify self ctx skaddr (pos 0) tx).0, status (notify self ctx skaddr (pos 0) tx).1)
      else (self, 0)

  -- The entry points: `msg`, and `recv_msg_ret` and `send_msg_ret` with their channels.
  unfoldable pub msg : Probe c → Context → Probe c × ℕ
  unfolding try_msg
  msg self ctx = ((try_msg self ctx).0, status (try_msg self ctx).1)

  unfoldable pub recv_msg_ret : Probe c → Context → Probe c × ℕ
  unfolding try_msg_ret
  recv_msg_ret self ctx = ((try_msg_ret self ctx rx).0, status (try_msg_ret self ctx rx).1)

  unfoldable pub send_msg_ret : Probe c → Context → Probe c × ℕ
  unfolding try_msg_ret
  send_msg_ret self ctx = ((try_msg_ret self ctx tx).0, status (try_msg_ret self ctx tx).1)
