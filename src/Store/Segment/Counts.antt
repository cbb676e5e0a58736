-- ===== src/Store/Segment/Counts.antt =====
-- What a segment counts for an interest.
use ptraf.Shared.{
  ℕ, ◌≡◌, refl, sym, ap, ◌∙◌, Bool, true, false, Option, none, some, List, [], ◌∷◌, option_map,
  unwrap_or, if◌then◌else◌, arith, Bool-cases, inl, inr,
}
use ptraf.Shared.Int.{ℤ, pos, negsuc, neg_i32}
use ptraf.Shared.Results.{ok, err}
use ptraf.Std.Bytes.{Endian}
use ptraf.Common.Types.{SockMsgEvent, Channel, tx, rx, packet_size, size_of_ret}
use ptraf.Store.Traffic.{
  Metrics, Stat, default_stat, default_metrics, increment_channel, stat_of, merge,
}
use ptraf.Store.Socket.{
  Interest, remote_ip, remote_socket, local_socket, pid, all, interest_eq, interest_eq_iff,
  interests_from_msg,
}
use ptraf.Store.Dash.{Dash, modified}
use ptraf.Store.Segment.Tally.{
  concerns, one_packet, share_of, share, tally, IsStat, merge-IsStat, merge-default_stat,
  merge-merge,
}
use ptraf.Store.Segment.{Segment, count_all, update, batch_update, stat_by_interest}

-- What an interest has: nothing is 0.
abbrev pub stat_at : (d : Dash) → Segment d → Interest → Stat
stat_at d s i = unwrap_or (stat_by_interest d s i) default_stat

stat_of-increment_channel :
    (c : Channel) (len : ℕ) (m : Metrics)
    → IsStat (stat_of m)
    → stat_of (increment_channel c len 1 m) ≡ merge (stat_of m) (one_packet c len)
unfolding stat_of increment_channel merge
stat_of-increment_channel tx len m h = ground arith
stat_of-increment_channel rx len m h = ground arith

pub unwrap_or-share :
    (c : Channel) (len : ℕ) (b : Bool) (o : Option Stat)
    → IsStat (unwrap_or o default_stat)
    → unwrap_or
        (if b then some (merge (unwrap_or o default_stat) (one_packet c len)) else o)
        default_stat
      ≡ merge (unwrap_or o default_stat) (share_of (pos len) c b)
unwrap_or-share c len true o h = refl
unwrap_or-share c len false o h = sym (merge-default_stat _ h)

pub stat_of-modified :
    (c : Channel) (len : ℕ) (o : Option Metrics) (b : Bool)
    → IsStat (unwrap_or (option_map stat_of o) default_stat)
    → option_map stat_of (
        if b
        then some
            (modified (increment_channel c len 1) (increment_channel c len 1 default_metrics) o)
        else o)
      ≡ (if b
          then some (merge (unwrap_or (option_map stat_of o) default_stat) (one_packet c len))
          else option_map stat_of o)
unfolding stat_of
stat_of-modified c len o false h = refl
stat_of-modified c len none true h = ap some (stat_of-increment_channel c len default_metrics h)
stat_of-modified c len (some m) true h = ap some (stat_of-increment_channel c len m h)

module _ (d : Dash) where
  -- A value that is kept under a key equal to `j` is the one under `j`.
  pub at_key :
      (idx : d.Index) (f : Metrics → Metrics) (v : Metrics) (k j : Interest)
      → (if interest_eq k j then some (modified f v (d.get idx k)) else d.get idx j)
        ≡ (if interest_eq k j then some (modified f v (d.get idx j)) else d.get idx j)
  at_key idx f v k j = elim (Bool-cases (interest_eq k j)) [
    | inl same ↦
        rw same (ap (λ l. some (modified f v (d.get idx l))) ((interest_eq_iff k j).0 same))
    | inr other ↦ rw other
  ]

  -- The five interests of a message have distinct keys: each interest is upserted at most once.
  get-count_all :
      (e : Endian) (idx : d.Index) (len : ℕ) (m : SockMsgEvent) (i : Interest)
      → d.get (count_all d m.channel len idx (interests_from_msg e m)) i ≡ (
          if concerns e i m
          then some (
              modified
                (increment_channel m.channel len 1)
                (increment_channel m.channel len 1 default_metrics)
                (d.get idx i))
          else d.get idx i)
  unfolding count_all interests_from_msg
  get-count_all e idx len m (remote_ip ip) =
      simp d.get-upsert (at_key idx _ _ (remote_ip _) (remote_ip ip))
  get-count_all e idx len m (remote_socket sock) =
      simp d.get-upsert (at_key idx _ _ (remote_socket _) (remote_socket sock))
  get-count_all e idx len m (local_socket sock) =
      simp d.get-upsert (at_key idx _ _ (local_socket _) (local_socket sock))
  get-count_all e idx len m (pid n) = simp d.get-upsert (at_key idx _ _ (pid m.pid) (pid n))
  get-count_all e idx len m all = simp d.get-upsert

  index-update_ok :
      (e : Endian) (s : Segment d) (m : SockMsgEvent) (len : ℕ)
      → packet_size m ≡ ok len
      → (update d e s m).index ≡ count_all d m.channel len s.index (interests_from_msg e m)
  unfolding update
  index-update_ok e s m len h = rw (h, update)

  update_error :
      (e : Endian) (s : Segment d) (m : SockMsgEvent) (x : ℤ)
      → packet_size m ≡ err x
      → update d e s m ≡ s
  unfolding update
  update_error e s m x h = rw (h, update)

  -- After a message that carries no error.
  stat_by_interest-update_ok :
      (e : Endian) (s : Segment d) (m : SockMsgEvent) (i : Interest) (len : ℕ)
      → packet_size m ≡ ok len
      → IsStat (stat_at d s i)
      → stat_by_interest d (update d e s m) i ≡ (
          if concerns e i m
          then some (merge (stat_at d s i) (one_packet m.channel len))
          else stat_by_interest d s i)
  unfolding stat_by_interest
  stat_by_interest-update_ok e s m i len r h =
      ap (λ idx. option_map stat_of (d.get idx i)) (index-update_ok e s m len r)
      ∙ ap (option_map stat_of) (get-count_all e s.index len m i)
      ∙ stat_of-modified m.channel len (d.get s.index i) (concerns e i m) h

  stat_at-update :
      (e : Endian) (s : Segment d) (m : SockMsgEvent) (i : Interest)
      → IsStat (stat_at d s i)
      → stat_at d (update d e s m) i ≡ merge (stat_at d s i) (share e i m)
  unfolding packet_size
  stat_at-update e s m i h = go m.ret refl
    where
      go :
          (r : ℤ)
          → m.ret ≡ r
          → stat_at d (update d e s m) i
            ≡ merge (stat_at d s i) (share_of r m.channel (concerns e i m))
      go (pos len) r =
          ap (λ o. unwrap_or o default_stat)
            (stat_by_interest-update_ok e s m i len (ap size_of_ret r) h)
          ∙ unwrap_or-share m.channel len (concerns e i m) (stat_by_interest d s i) h
      go (negsuc n) r =
          ap (λ t. stat_at d t i) (update_error e s m (neg_i32 (negsuc n)) (ap size_of_ret r))
          ∙ sym (merge-default_stat (stat_at d s i) h)

  -- The counters of an interest after a batch are its counters before, which fit 64 bits, plus
  -- the bytes and the packets of the messages of the batch that are its traffic and carry no
  -- error, modulo 2^64.
  pub stat_at-batch_update :
      (e : Endian) (s : Segment d) (ms : List SockMsgEvent) (i : Interest)
      → IsStat (stat_at d s i)
      → stat_at d (batch_update d e s ms) i ≡ merge (stat_at d s i) (tally e i ms)
  unfolding batch_update
  stat_at-batch_update e s [] i h = sym (merge-default_stat _ h)
  stat_at-batch_update e s (m ∷ ms) i h =
      let one = stat_at-update e s m i h in
      stat_at-batch_update e (update d e s m) ms i (rw one (merge-IsStat _ _))
      ∙ ap (λ t. merge t (tally e i ms)) one
      ∙ merge-merge (stat_at d s i) (share e i m) (tally e i ms)
