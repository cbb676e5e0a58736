-- ===== src/Store/Segment/Threads.antt =====
-- Two tasks that update one segment at the same time. The steps of a task are the calls that it
-- makes of the concurrent set and map (ptraf/src/store.rs, `Segment::batch_update`).
use ptraf.Shared.{ℕ, ◌≡◌, refl, sym, ap, ◌∙◌, List, [], ◌∷◌, option_map, unwrap_or, arith}
use mathlib.Core.Path.{ap₂}
use ptraf.Shared.Int.{ℤ, pos, negsuc}
use ptraf.Shared.Results.{Result, ok, err}
use ptraf.Std.Bytes.{Endian}
use ptraf.Common.Types.{SockMsgEvent, Channel, packet_size, size_of_ret}
use ptraf.Store.Traffic.{Stat, default_stat, stat_of, merge}
use ptraf.Store.Socket.{
  Interest, remote_ip, remote_socket, local_socket, pid, all, interest_eq, interests_from_msg,
  Socket, socket_of,
}
use ptraf.Store.Dash.{Dash}
use ptraf.Store.Segment.Tally.{
  concerns, plus, share_of, tally, IsStat, merge-IsStat, merge-default_stat, merge-merge,
}
use ptraf.Store.Segment.Counts.{
  stat_at, at_key, stat_of-modified, unwrap_or-share, stat_at-batch_update,
}
use ptraf.Store.Segment.{Segment, count, count_all, update, batch_update, stat_by_interest}

-- A step of a task: it inserts a socket, or counts one packet for one interest.
pub data Op : Type 0 where
  add_socket : Socket → Op
  count_packet : Channel → ℕ → Interest → Op

abbrev pub packet_ops : Channel → ℕ → List Interest → List Op → List Op
packet_ops c len [] rest = rest
packet_ops c len (i ∷ is) rest = count_packet c len i ∷ packet_ops c len is rest

abbrev pub ops_in : Endian → Result ℕ ℤ → SockMsgEvent → List Op → List Op
ops_in e (ok len) m rest =
    add_socket (socket_of e m) ∷ packet_ops m.channel len (interests_from_msg e m) rest
ops_in e (err x) m rest = rest

-- The steps of a task that has a batch to store.
abbrev pub ops_of : Endian → List SockMsgEvent → List Op
ops_of e [] = []
ops_of e (m ∷ ms) = ops_in e (packet_size m) m (ops_of e ms)

-- The steps of two tasks, in the order in which they happen.
pub data Interleaving : List Op → List Op → List Op → Type 0 where
  nil : Interleaving [] [] []
  left : {o : Op} {xs ys zs : List Op} → Interleaving xs ys zs → Interleaving (o ∷ xs) ys (o ∷ zs)
  right : {o : Op} {xs ys zs : List Op} → Interleaving xs ys zs → Interleaving xs (o ∷ ys) (o ∷ zs)

abbrev pub op_share : Interest → Op → Stat
op_share i (add_socket x) = default_stat
op_share i (count_packet c len k) = share_of (pos len) c (interest_eq k i)

abbrev pub op_tally : Interest → List Op → Stat
op_tally i [] = default_stat
op_tally i (o ∷ os) = plus (op_share i o) (op_tally i os)

plus_left : (a b c : Stat) → plus a (plus b c) ≡ plus (plus a b) c
plus_left a b c = ground arith

plus_right : (a b c : Stat) → plus a (plus b c) ≡ plus b (plus a c)
plus_right a b c = ground arith

plus-default_stat : (a : Stat) → plus default_stat a ≡ a
plus-default_stat a = ground arith

op_tally-Interleaving :
    (i : Interest) {xs ys zs : List Op}
    → Interleaving xs ys zs
    → op_tally i zs ≡ plus (op_tally i xs) (op_tally i ys)
op_tally-Interleaving i nil = refl
op_tally-Interleaving i (left {o} {xs} {ys} t) =
    ap (plus (op_share i o)) (op_tally-Interleaving i t)
    ∙ plus_left (op_share i o) (op_tally i xs) (op_tally i ys)
op_tally-Interleaving i (right {o} {xs} {ys} t) =
    ap (plus (op_share i o)) (op_tally-Interleaving i t)
    ∙ plus_right (op_share i o) (op_tally i xs) (op_tally i ys)

-- The five steps of a message count it once for each of its interests.
op_tally-packet_ops :
    (e : Endian) (i : Interest) (m : SockMsgEvent) (len : ℕ) (rest : List Op)
    → op_tally i (packet_ops m.channel len (interests_from_msg e m) rest)
      ≡ plus (share_of (pos len) m.channel (concerns e i m)) (op_tally i rest)
unfolding interests_from_msg
op_tally-packet_ops e (remote_ip ip) m len rest = ground arith
op_tally-packet_ops e (remote_socket sock) m len rest = ground arith
op_tally-packet_ops e (local_socket sock) m len rest = ground arith
op_tally-packet_ops e (pid n) m len rest = ground arith
op_tally-packet_ops e all m len rest = ground arith

pub op_tally-ops_of :
    (e : Endian) (i : Interest) (ms : List SockMsgEvent) → op_tally i (ops_of e ms) ≡ tally e i ms
unfolding packet_size
op_tally-ops_of e i [] = refl
op_tally-ops_of e i (m ∷ ms) = go m.ret (op_tally-ops_of e i ms)
  where
    go :
        (r : ℤ)
        → op_tally i (ops_of e ms) ≡ tally e i ms
        → op_tally i (ops_in e (size_of_ret r) m (ops_of e ms))
          ≡ plus (share_of r m.channel (concerns e i m)) (tally e i ms)
    go (pos len) ih =
        plus-default_stat _
        ∙ op_tally-packet_ops e i m len (ops_of e ms)
        ∙ ap (plus (share_of (pos len) m.channel (concerns e i m))) ih
    go (negsuc n) ih = ih ∙ sym (plus-default_stat (tally e i ms))

module _ (d : Dash) where
  unfoldable pub step : Segment d → Op → Segment d
  unfolding count
  step s (add_socket x) = record { index = s.index; socks = d.insert s.socks x }
  step s (count_packet c len i) = record { index = count d c len s.index i; socks = s.socks }

  unfoldable pub run : Segment d → List Op → Segment d
  unfolding step
  run s [] = s
  run s (o ∷ os) = run (step s o) os

  run-packet_ops :
      (c : Channel) (len : ℕ) (s : Segment d) (is : List Interest) (rest : List Op)
      → run s (packet_ops c len is rest)
        ≡ run (record { index = count_all d c len s.index is; socks = s.socks }) rest
  unfolding run count_all
  run-packet_ops c len s [] rest = refl
  run-packet_ops c len s (i ∷ is) rest =
      run-packet_ops c len (step s (count_packet c len i)) is rest

  -- A batch is stored by the steps of its messages, one after the other.
  pub batch_update-run :
      (e : Endian) (s : Segment d) (ms : List SockMsgEvent)
      → batch_update d e s ms ≡ run s (ops_of e ms)
  unfolding batch_update update run
  batch_update-run e s [] = refl
  batch_update-run e s (m ∷ ms) = batch_update-run e (update d e s m) ms ∙ go (packet_size m) refl
    where
      go :
          (r : Result ℕ ℤ)
          → packet_size m ≡ r
          → run (update d e s m) (ops_of e ms) ≡ run s (ops_in e r m (ops_of e ms))
      go (ok len) q = rw (q, update) refl
      go (err x) q = rw (q, update) refl

  stat_at-step :
      (s : Segment d) (o : Op) (i : Interest)
      → IsStat (stat_at d s i)
      → stat_at d (step s o) i ≡ merge (stat_at d s i) (op_share i o)
  unfolding step stat_by_interest
  stat_at-step s (add_socket x) i h = sym (merge-default_stat _ h)
  stat_at-step s (count_packet c len k) i h =
      ap (λ o. unwrap_or (option_map stat_of o) default_stat)
        (d.get-upsert s.index k _ _ i ∙ at_key d s.index _ _ k i)
      ∙ ap (λ o. unwrap_or o default_stat)
          (stat_of-modified c len (d.get s.index i) (interest_eq k i) h)
      ∙ unwrap_or-share c len (interest_eq k i) (option_map stat_of (d.get s.index i)) h

  stat_at-run :
      (s : Segment d) (os : List Op) (i : Interest)
      → IsStat (stat_at d s i)
      → stat_at d (run s os) i ≡ merge (stat_at d s i) (op_tally i os)
  unfolding run
  stat_at-run s [] i h = sym (merge-default_stat _ h)
  stat_at-run s (o ∷ os) i h =
      let one = stat_at-step s o i h in
      stat_at-run (step s o) os i (rw one (merge-IsStat _ _))
      ∙ ap (λ t. merge t (op_tally i os)) one
      ∙ merge-merge (stat_at d s i) (op_share i o) (op_tally i os)

  -- However the steps of two tasks that store a batch each come to interleave, the counters of
  -- every interest end as if the one batch had been stored after the other. The counters fit 64
  -- bits at the start.
  pub stat_at-Interleaving :
      (e : Endian) (s : Segment d) (ms ns : List SockMsgEvent) (os : List Op) (i : Interest)
      → Interleaving (ops_of e ms) (ops_of e ns) os
      → IsStat (stat_at d s i)
      → stat_at d (run s os) i ≡ stat_at d (batch_update d e (batch_update d e s ms) ns) i
  stat_at-Interleaving e s ms ns os i t h =
      let first = stat_at-batch_update d e s ms i h in
      stat_at-run s os i h
      ∙ ap (merge (stat_at d s i))
          (op_tally-Interleaving i t ∙ ap₂ plus (op_tally-ops_of e i ms) (op_tally-ops_of e i ns))
      ∙ sym (merge-merge (stat_at d s i) (tally e i ms) (tally e i ns))
      ∙ ap (λ t'. merge t' (tally e i ns)) (sym first)
      ∙ sym (stat_at-batch_update d e (batch_update d e s ms) ns i (rw first (merge-IsStat _ _)))
