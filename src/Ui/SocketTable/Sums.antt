-- ===== src/Ui/SocketTable/Sums.antt =====
-- ptraf/src/ui/socktable.rs: the traffic that a table shows for a local address, and the traffic
-- of the segments.
use mathlib.Core.List.{foldl}
use ptraf.Shared.{
  ℕ, ◌≡◌, refl, sym, ap, ◌∙◌, inl, inr, Bool, true, false, ◌&&◌, Option, none, some, List, [], ◌∷◌,
  if◌then◌else◌, option_map, unwrap_or, Bool-cases, arith, leb,
}
use ptraf.Std.Ip.{SocketAddr, addr_eq, addr_eq_iff}
use ptraf.Clock.{Timestamp, ClockNano, wall_time}
use ptraf.Filter.Interpretor.{Interpretor}
use ptraf.Store.Traffic.{Stat, default_stat, merge}
use ptraf.Store.Socket.{Socket}
use ptraf.Store.Dash.{Dash}
use ptraf.Store.Segment.Tally.{plus, merge-merge, wrapped, merge-wrapped, wrapped-merge}
use ptraf.Store.Series.{TimeSegment}
use ptraf.Ui.Filter.{Filter}
use ptraf.Ui.SocketTable.{
  Entry, SocketCache, SocketTableCollector, lookup, upsert, passes, add_to, new_entry, socket_stat,
  collect_socket, collect_segment, collect_segments, new_collector,
}
use ptraf.Ui.SocketTable.Cache.{lookup-upsert}

-- The traffic and the rate traffic of an entry, 0 where there is none.
abbrev pub shown : Option Entry → Stat
shown none = default_stat
shown (some e) = e.stat

abbrev pub shown_rate : Option Entry → Stat
shown_rate none = default_stat
shown_rate (some e) = e.rate_stat

merge-zero : (s : Stat) → merge s default_stat ≡ wrapped s
unfolding merge
merge-zero s = ground arith

and_true : (b : Bool) → (b && true) ≡ b
and_true true = refl
and_true false = refl

and_false : (b : Bool) → (b && false) ≡ false
and_false true = refl
and_false false = refl

-- Whether a socket is counted for an address.
unfoldable pub counted : SocketAddr → Filter → Option Interpretor → Socket → Bool
counted k f i x = passes f i x && addr_eq x.local k

-- The traffic of a socket in a segment, if the socket is counted for the address and the segment
-- passes a test.
unfoldable pub counted_stat :
    (d : Dash) → SocketAddr → Filter → Option Interpretor → Bool → TimeSegment d → Socket → Stat
unfolding counted
counted_stat d k f i b s x = if b && counted k f i x then socket_stat d s x else default_stat

-- The unbounded sum over the sockets of a segment.
abbrev pub sum_sockets :
    (d : Dash)
    → SocketAddr
    → Filter
    → Option Interpretor
    → Bool
    → TimeSegment d
    → List Socket
    → Stat
sum_sockets d k f i b s [] = default_stat
sum_sockets d k f i b s (x ∷ xs) = plus (counted_stat d k f i b s x) (sum_sockets d k f i b s xs)

-- The same over the segments that pass a test.
abbrev pub sum_segments :
    (d : Dash)
    → SocketAddr
    → Filter
    → Option Interpretor
    → (TimeSegment d → Bool)
    → List (TimeSegment d)
    → Stat
sum_segments d k f i p [] = default_stat
sum_segments d k f i p (s ∷ segs) =
    plus (sum_sockets d k f i (p s) s (d.iter s.segment.socks)) (sum_segments d k f i p segs)

unfold_collect :
    (d : Dash) (self : SocketTableCollector) (b : Bool) (s : TimeSegment d) (clock : ClockNano)
    (cache : SocketCache) (x : Socket)
    → collect_socket d self b s clock cache x ≡ (
        if passes self.filter self.filter_interpretor x
        then upsert x.local
            (add_to b (socket_stat d s x))
            (new_entry b (socket_stat d s x) (wall_time clock s.ts) x)
            cache
        else cache)
unfolding collect_socket
unfold_collect d self b s clock cache x = refl

-- A column of the table: what it shows for an entry, and whether it counts a segment.
module _ (shows : Option Entry → Stat) (counts : Bool → Bool)
    (step : (b : Bool) (st : Stat) (w : ℕ) (x : Socket) (o : Option Entry)
      → wrapped (shows (some (unwrap_or (option_map (add_to b st) o) (new_entry b st w x))))
        ≡ merge (shows o) (if counts b then st else default_stat))
    (d : Dash) (k : SocketAddr) where
  shows-collect_socket :
      (self : SocketTableCollector) (b : Bool) (s : TimeSegment d) (clock : ClockNano)
      (cache : SocketCache) (x : Socket)
      → wrapped (shows (lookup k (collect_socket d self b s clock cache x)))
        ≡ merge
            (shows (lookup k cache))
            (counted_stat d k self.filter self.filter_interpretor (counts b) s x)
  unfolding counted_stat counted
  shows-collect_socket self b s clock cache x =
      elim (Bool-cases (passes self.filter self.filter_interpretor x)) [
        | inl ok ↦
            rw (unfold_collect d self b s clock cache x, ok)
              (rw
                (lookup-upsert x.local k (add_to b (socket_stat d s x))
                  (new_entry b (socket_stat d s x) (wall_time clock s.ts) x) cache)
                (elim (Bool-cases (addr_eq x.local k)) [
                  | inl same ↦
                      rw
                        (
                          same,
                          ap (λ a. lookup a cache) ((addr_eq_iff x.local k).0 same),
                          and_true (counts b),
                        )
                        (step b (socket_stat d s x) (wall_time clock s.ts) x (lookup k cache))
                  | inr other ↦
                      rw (other, and_false (counts b)) (sym (merge-zero (shows (lookup k cache))))
                ]))
        | inr no' ↦
            rw (unfold_collect d self b s clock cache x, no', and_false (counts b))
              (sym (merge-zero (shows (lookup k cache))))
      ]

  shows-foldl :
      (self : SocketTableCollector) (b : Bool) (s : TimeSegment d) (clock : ClockNano)
      (xs : List Socket) (cache : SocketCache)
      → wrapped (shows (lookup k (foldl (collect_socket d self b s clock) cache xs)))
        ≡ merge
            (shows (lookup k cache))
            (sum_sockets d k self.filter self.filter_interpretor (counts b) s xs)
  shows-foldl self b s clock [] cache = sym (merge-zero (shows (lookup k cache)))
  shows-foldl self b s clock (x ∷ xs) cache =
      shows-foldl self b s clock xs (collect_socket d self b s clock cache x)
      ∙ sym (merge-wrapped _ _)
      ∙ ap (λ t. merge t (sum_sockets d k self.filter self.filter_interpretor (counts b) s xs))
          (shows-collect_socket self b s clock cache x)
      ∙ merge-merge _ _ _

  shows-collect_segments :
      (clock : ClockNano) (self : SocketTableCollector) (segs : List (TimeSegment d))
      → wrapped (shows (lookup k (collect_segments d clock self segs).socket_cache))
        ≡ merge (shows (lookup k self.socket_cache)) (
            sum_segments d k self.filter self.filter_interpretor
              (λ s. counts (leb self.rate_until s.ts))
              segs)
  unfolding collect_segments
  shows-collect_segments clock self [] = sym (merge-zero (shows (lookup k self.socket_cache)))
  shows-collect_segments clock self (s ∷ segs) =
      shows-collect_segments clock (collect_segment d clock self s) segs
      ∙ sym (merge-wrapped _ _)
      ∙ ap
          (λ t. merge t (
            sum_segments d k self.filter self.filter_interpretor
              (λ s. counts (leb self.rate_until s.ts)) segs))
          (shows-foldl self (leb self.rate_until s.ts) s clock (d.iter s.segment.socks)
            self.socket_cache)
      ∙ merge-merge _ _ _

stat_step :
    (b : Bool) (st : Stat) (w : ℕ) (x : Socket) (o : Option Entry)
    → wrapped (shown (some (unwrap_or (option_map (add_to b st) o) (new_entry b st w x))))
      ≡ merge (shown o) (if true then st else default_stat)
unfolding add_to new_entry
stat_step b st w x none = refl
stat_step b st w x (some e) = wrapped-merge e.stat st

rate_step :
    (b : Bool) (st : Stat) (w : ℕ) (x : Socket) (o : Option Entry)
    → wrapped (shown_rate (some (unwrap_or (option_map (add_to b st) o) (new_entry b st w x))))
      ≡ merge (shown_rate o) (if b then st else default_stat)
unfolding add_to new_entry
rate_step true st w x none = refl
rate_step false st w x none = refl
rate_step true st w x (some e) = wrapped-merge e.rate_stat st
rate_step false st w x (some e) = sym (merge-zero e.rate_stat)

-- After a collection from an empty cache, for every local address: the statistics that its entry
-- shows are the sum over all segments, and the rate statistics the sum over the segments from
-- `rate_until` on, of the traffic of the sockets with that address that the filters let through.
-- Both equations are modulo 2 ^ 64, and an address without an entry counts as 0.
pub collect_segments_lem :
    (d : Dash) (k : SocketAddr) (clock : ClockNano) (f : Filter) (i : Option Interpretor)
    (rate_until : Timestamp) (segs : List (TimeSegment d))
    → (let c = collect_segments d clock (new_collector f i rate_until) segs in
        (wrapped (shown (lookup k c.socket_cache))
          ≡ wrapped (sum_segments d k f i (λ s. true) segs))
        × (wrapped (shown_rate (lookup k c.socket_cache))
            ≡ wrapped (sum_segments d k f i (λ s. leb rate_until s.ts) segs)))
unfolding lookup new_collector
collect_segments_lem d k clock f i rate_until segs = (
  shows-collect_segments shown (λ b. true) stat_step d k clock (new_collector f i rate_until) segs,
  shows-collect_segments shown_rate (λ b. b) rate_step d k clock (new_collector f i rate_until)
      segs,
)
