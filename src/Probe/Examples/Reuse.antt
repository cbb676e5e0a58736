-- ===== src/Probe/Examples/Reuse.antt =====
-- ptraf-ebpf/src/ptraf-ebpf.rs: a return probe whose slot is taken by another thread's entry probe
-- before it has read it reports the socket of that thread. The map has one slot.
use ptraf.Shared.{
  ℕ, ◌≡◌, refl, ◌==◌, Bool, true, false, Option, none, some, List, [], ◌∷◌, if◌then◌else◌,
  option_map, map, arith,
}
use ptraf.Shared.Int.{ℤ, pos}
use ptraf.Shared.Results.{Result, ok, err}
use ptraf.Common.Types.{SockMsgEvent, BpfIpAddr, Words, rx, ip_v4}
use ptraf.Probe.{CacheMap, Kernel, Context, Probe, try_msg, take_entry, report}

-- The thread that has the slot, and what the slot holds.
record Slots : Type 0 where
  owner : Option ℕ
  memory : ℕ

abbrev is_owner : Option ℕ → ℕ → Bool
is_owner none k = false
is_owner (some j) k = k == j

abbrev is_free : Option ℕ → ℕ → Bool
is_free none k = true
is_free (some j) k = k == j

abbrev looked_up : Slots → ℕ → Option (Unit {0})
looked_up m k = if is_owner m.owner k then some tt else none

abbrev content : Slots → ℕ → Option ℕ
content m k = option_map (λ _. m.memory) (looked_up m k)

abbrev insert : Slots → ℕ → ℕ → Result Slots ℤ
insert m k v = if is_free m.owner k then ok (record { owner = some k; memory = v }) else err (pos 1)

abbrev remove : Slots → ℕ → Slots
remove m k = record m { owner = if is_owner m.owner k then none else m.owner }

content-insert :
    (m n : Slots) (k v j : ℕ)
    → insert m k v ≡ ok n
    → content n j ≡ (if k == j then some v else content m j)
content-insert m n k v j h = ground arith

content-remove :
    (m : Slots) (k j : ℕ) → content (remove m k) j ≡ (if k == j then none else content m j)
content-remove m k j = ground arith

abbrev one_slot : CacheMap
one_slot = record {
  Map = Slots;
  Slot = Unit {0};
  get = looked_up;
  deref = λ m s. m.memory;
  insert = insert;
  remove = remove;
  get-insert = content-insert;
  get-remove = content-remove;
  deref-remove = λ m k s. refl;
}

abbrev no_words : Words
no_words = record { w0 = 0; w1 = 0; w2 = 0; w3 = 0; w4 = 0; w5 = 0; w6 = 0; w7 = 0 }

-- A socket's `sk` is its own number, which is its local address too.
abbrev kernel : Kernel
kernel = record {
  read_sk = λ socket. ok socket;
  read_common = λ sk. ok (record {
    skc_portpair = 0;
    skc_family = 2;
    skc_rcv_saddr = sk;
    skc_daddr = 0;
    skc_v6_rcv_saddr = no_words;
    skc_v6_daddr = no_words;
  });
  read_type = λ sk. ok 1;
}

-- A thread and the socket that it works on.
abbrev on_thread : ℕ → ℕ → Context
on_thread n socket = record { pid_tgid = n; pid = n; arg = some socket; ret = some (pos 5) }

abbrev quiet : Probe one_slot
quiet = record { cache = record { owner = none; memory = 0 }; events = [] }

-- The local addresses that thread 1 reports for its socket 100, where thread 2 enters with 200 after
-- thread 1 has taken its entry, and where it does not.
abbrev reports : (Probe one_slot → Probe one_slot) → List BpfIpAddr
reports between =
    let taken =
      take_entry one_slot kernel (try_msg one_slot kernel quiet (on_thread 1 100)).0
        (on_thread 1 100) in
    let after = report one_slot kernel (between taken.0) (on_thread 1 100) rx taken.1 in
    map (λ (e : SockMsgEvent). e.local_addr) after.0.events

undisturbed : reports (λ p. p) ≡ ip_v4 100 ∷ []
unfolding try_msg take_entry report
undisturbed = refl

overtaken : reports (λ p. (try_msg one_slot kernel p (on_thread 2 200)).0) ≡ ip_v4 200 ∷ []
unfolding try_msg take_entry report
overtaken = refl
