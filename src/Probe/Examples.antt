-- ===== src/Probe/Examples.antt =====
-- The theorem on the probes, on three threads.
mod Reuse
use ptraf.Shared.{
  ℕ, ◌≡◌, refl, sym, ap, ◌+◌, ◌==◌, ◌∙◌, Bool, true, false, option_map, Option, none, some, List,
  [], ◌∷◌, ◌++◌, if◌then◌else◌,
}
use ptraf.Shared.Int.{ℤ, pos}
use ptraf.Shared.Results.{Result, ok, err}
use ptraf.Common.Types.{Words, rx, tx, ip_v4}
use ptraf.Probe.{
  SockCommon, Kernel, Context, CacheMap, Probe, addresses, event_of, try_msg, take_entry, report,
  value,
}
use ptraf.Probe.Threads.Steps.{Call, entered, took, reported, run, Readable}
use ptraf.Probe.Threads.{report-run-try_msg}
use ptraf.Shared.{arith}
use ptraf.Std.Bytes.{little, swap16, from_be16, from_be32}
use ptraf.Std.Ip
use ptraf.Common.Types.{SockMsgEvent, local_sock_addr, remote_sock_addr}
use ptraf.Probe.{notification}
use ptraf.Probe.Addresses.{HasAddresses, notification-sock_addr}

-- The threads that have an entry, and what each slot holds; a thread's slot is its own.
record Table : Type 0 where
  present : ℕ → Bool
  memory : ℕ → ℕ

abbrev stored : Table → ℕ → ℕ → Table
stored m k v = record {
  present = λ j. if k == j then true else m.present j;
  memory = λ j. if k == j then v else m.memory j;
}

abbrev looked_up : Table → ℕ → Option ℕ
looked_up m k = if m.present k then some k else none

abbrev content : Table → ℕ → Option ℕ
content m k = option_map m.memory (looked_up m k)

content-stored :
    (m : Table) (k v j : ℕ) → content (stored m k v) j ≡ (if k == j then some v else content m j)
content-stored m k v j = ground arith

abbrev without : Table → ℕ → Table
without m k = record m { present = λ j. if k == j then false else m.present j }

content-removed :
    (m : Table) (k j : ℕ) → content (without m k) j ≡ (if k == j then none else content m j)
content-removed m k j = ground arith

abbrev table_or : Table → Result Table ℤ → Table
table_or m (ok n) = n
table_or m (err e) = m

-- A map that is never full.
abbrev simple_map : CacheMap
simple_map = record {
  Map = Table;
  Slot = ℕ;
  get = looked_up;
  deref = λ m s. m.memory s;
  insert = λ m k v. ok (stored m k v);
  remove = without;
  get-insert = λ m n k v j h. ap (λ r. content (table_or m r) j) (sym h) ∙ content-stored m k v j;
  get-remove = λ m k j. content-removed m k j;
  deref-remove = λ m k s. refl;
}

abbrev no_words : Words
no_words = record { w0 = 0; w1 = 0; w2 = 0; w3 = 0; w4 = 0; w5 = 0; w6 = 0; w7 = 0 }

abbrev common : SockCommon
common = record {
  skc_portpair = 5243323;
  skc_family = 2;
  skc_rcv_saddr = 16777343;
  skc_daddr = 33554442;
  skc_v6_rcv_saddr = no_words;
  skc_v6_daddr = no_words;
}

-- Every socket has the same contents, and its `sk` is the next address.
abbrev simple_kernel : Kernel
simple_kernel = record {
  read_sk = λ socket. ok (socket + 1);
  read_common = λ sk. ok common;
  read_type = λ sk. ok 1;
}

abbrev on_thread : ℕ → Context
on_thread n = record { pid_tgid = n; pid = 9; arg = some 4096; ret = some (pos 100) }

abbrev quiet : Probe simple_map
quiet = record { cache = record { present = λ k. false; memory = λ k. 0 }; events = [] }

abbrev others : List (Call simple_map)
others =
    entered (on_thread 2)
    ∷ took (on_thread 2)
    ∷ reported tx (on_thread 2) (some 2)
    ∷ entered (on_thread 3)
    ∷ []

-- Between the two steps of the first thread the third one's return probe takes its entry.
abbrev between : List (Call simple_map)
between = took (on_thread 3) ∷ reported rx (on_thread 3) (some 3) ∷ []

readable : Readable simple_map simple_kernel 4096 common 1 (ip_v4 16777343, ip_v4 33554442)
unfolding addresses
readable = record {
  sk = 4097;
  sk_read = refl;
  common_read = refl;
  type_read = refl;
  addressed = refl;
}

entry_done : (try_msg simple_map simple_kernel quiet (on_thread 1)).1 ≡ ok 0
unfolding try_msg
entry_done = refl

report-run-try_msg_example :
    (let taken =
        take_entry simple_map simple_kernel
          (run simple_map simple_kernel
            (try_msg simple_map simple_kernel quiet (on_thread 1)).0
            others)
          (on_thread 1) in
      let before = run simple_map simple_kernel taken.0 between in
      let after = report simple_map simple_kernel before (on_thread 1) rx taken.1 in
      (after.1 ≡ ok 0)
      × (after.0.events
          ≡ before.events
            ++ event_of (on_thread 1) common 1 (pos 100) rx (ip_v4 16777343, ip_v4 33554442) ∷ [])
      × (value simple_map after.0.cache 1 ≡ none))
report-run-try_msg_example =
    report-run-try_msg simple_map simple_kernel quiet (on_thread 1) (on_thread 1) others between rx
      (pos 100) 4096 refl readable entry_done (refl, (refl, (refl, (refl, tt)))) (refl, (refl, tt))
      (tt, (tt, tt)) refl refl

-- A connection from 127.0.0.1, port 80, to 10.0.0.2, port 47873.
common-HasAddresses : HasAddresses little common (Ip.v4 2130706433) (Ip.v4 167772162)
unfolding from_be32
common-HasAddresses =
    HasAddresses.inet 2130706433 167772162 refl (omega arith) (omega arith) refl refl

notification-sock_addr_example :
    (ev : SockMsgEvent) × (notification simple_map simple_kernel (on_thread 1) 4097 (pos 100) rx
      ≡ ok (some ev))
    × (remote_sock_addr little ev ≡ record { ip = Ip.v4 167772162; port = 47873 })
    × (local_sock_addr little ev ≡ record { ip = Ip.v4 2130706433; port = swap16 80 })
    × (ev.pid ≡ 9)
    × (ev.ret ≡ pos 100)
unfolding from_be16
notification-sock_addr_example =
    notification-sock_addr simple_map simple_kernel (on_thread 1) 4097 1 common (pos 100) rx
      (Ip.v4 2130706433) (Ip.v4 167772162) 80 47873 refl refl common-HasAddresses (omega arith)
      (omega arith) (omega arith)
