-- ===== src/Ui/SocketTable/Rows.antt =====
-- ptraf/src/ui/socktable.rs: which local addresses the rows of the table are for.
use mathlib.Core.List.{foldl}
use ptraf.Shared.{
  ◌≡◌, refl, sym, ap, ◌∙◌, subst, inl, inr, Bool, true, false, ◌||◌, Option, some, is_some, List,
  [], ◌∷◌, any, if_cases, Bool-cases, leb, All,
}
use ptraf.Std.Ip.{SocketAddr, addr_eq}
use ptraf.Clock.{Timestamp, ClockNano, trunc}
use ptraf.Filter.Interpretor.{Interpretor}
use ptraf.Store.Socket.{Socket}
use ptraf.Store.Dash.{Dash}
use ptraf.Store.Series.{Store, TimeSegment}
use ptraf.Ui.Filter.{Filter}
use ptraf.Ui.SocketTable.{
  SocketCache, SocketTable, SocketTableCollector, lookup, passes, add_to, new_entry, collect_socket,
  collect_segment, collect_segments, new_collector, recent, collect, collect_from,
}
use ptraf.Ui.SocketTable.Cache.{lookup-upsert}
use ptraf.Ui.SocketTable.Collected.{collect-eq-some}
use ptraf.Ui.SocketTable.Sums.{counted}
use ptraf.Ui.Sparkline.Sorted.{Sorted}
use ptraf.Ui.SocketTable.Keys.{
  Keyed, Apart, upsert-Apart, upsert-Keyed, has_row, has_row-lookup, OneEach, OneEach-values,
}

or_assoc : (a b c : Bool) → ((a || b) || c) ≡ (a || (b || c))
or_assoc true b c = refl
or_assoc false b c = refl

or_true : (a : Bool) → (a || true) ≡ true
or_true true = refl
or_true false = refl

or_false : (a : Bool) → (a || false) ≡ a
or_false true = refl
or_false false = refl

record IsCache (m : SocketCache) : Type 0 where
  keyed : All Keyed m
  apart : Sorted Apart m

module _ (d : Dash) where
  collect_socket-IsCache :
      (self : SocketTableCollector) (b : Bool) (s : TimeSegment d) (clock : ClockNano)
      (cache : SocketCache) (x : Socket)
      → IsCache cache
      → IsCache (collect_socket d self b s clock cache x)
  unfolding collect_socket add_to new_entry
  collect_socket-IsCache self b s clock cache x h =
      if_cases IsCache (passes self.filter self.filter_interpretor x)
        (λ _. record {
          keyed = upsert-Keyed x.local _ _ cache (λ e. refl) refl h.keyed;
          apart = upsert-Apart x.local _ _ cache h.apart;
        })
        (λ _. h)

  -- A socket that is counted for an address gives the address an entry.
  lookup-collect_socket :
      (k : SocketAddr) (self : SocketTableCollector) (b : Bool) (s : TimeSegment d)
      (clock : ClockNano) (cache : SocketCache) (x : Socket)
      → is_some (lookup k (collect_socket d self b s clock cache x))
        ≡ (is_some (lookup k cache) || counted k self.filter self.filter_interpretor x)
  unfolding collect_socket counted
  lookup-collect_socket k self b s clock cache x =
      elim (Bool-cases (passes self.filter self.filter_interpretor x)) [
        | inr no' ↦ rw no' (sym (or_false (is_some (lookup k cache))))
        | inl ok ↦ elim (Bool-cases (addr_eq x.local k)) [
          | inl here ↦
              rw (ok, lookup-upsert x.local k _ _ cache, here)
                (sym (or_true (is_some (lookup k cache))))
          | inr there ↦
              rw (ok, lookup-upsert x.local k _ _ cache, there)
                (sym (or_false (is_some (lookup k cache))))
        ]
      ]

  fold-IsCache :
      (self : SocketTableCollector) (b : Bool) (s : TimeSegment d) (clock : ClockNano)
      (xs : List Socket) (cache : SocketCache)
      → IsCache cache
      → IsCache (foldl (collect_socket d self b s clock) cache xs)
  fold-IsCache self b s clock [] cache h = h
  fold-IsCache self b s clock (x ∷ xs) cache h =
      fold-IsCache self b s clock xs _ (collect_socket-IsCache self b s clock cache x h)

  lookup-fold :
      (k : SocketAddr) (self : SocketTableCollector) (b : Bool) (s : TimeSegment d)
      (clock : ClockNano) (xs : List Socket) (cache : SocketCache)
      → is_some (lookup k (foldl (collect_socket d self b s clock) cache xs))
        ≡ (is_some (lookup k cache) || any (counted k self.filter self.filter_interpretor) xs)
  lookup-fold k self b s clock [] cache = sym (or_false _)
  lookup-fold k self b s clock (x ∷ xs) cache =
      lookup-fold k self b s clock xs (collect_socket d self b s clock cache x)
      ∙ ap (λ c. c || any (counted k self.filter self.filter_interpretor) xs)
          (lookup-collect_socket k self b s clock cache x)
      ∙ or_assoc (is_some (lookup k cache)) _ _

  segments-IsCache :
      (clock : ClockNano) (self : SocketTableCollector) (segs : List (TimeSegment d))
      → IsCache self.socket_cache
      → IsCache (collect_segments d clock self segs).socket_cache
  unfolding collect_segments
  segments-IsCache clock self [] h = h
  segments-IsCache clock self (s ∷ segs) h =
      segments-IsCache clock (collect_segment d clock self s) segs (
        fold-IsCache self (leb self.rate_until s.ts) s clock (d.iter s.segment.socks)
          self.socket_cache h)

  -- Whether some socket of the segments is counted for an address.
  abbrev pub any_counted : SocketAddr → Filter → Option Interpretor → List (TimeSegment d) → Bool
  any_counted k f i segs = any (λ s. any (counted k f i) (d.iter s.segment.socks)) segs

  lookup-segments :
      (k : SocketAddr) (clock : ClockNano) (self : SocketTableCollector)
      (segs : List (TimeSegment d))
      → is_some (lookup k (collect_segments d clock self segs).socket_cache) ≡ (
          is_some (lookup k self.socket_cache)
          || any_counted k self.filter self.filter_interpretor segs)
  unfolding collect_segments
  lookup-segments k clock self [] = sym (or_false _)
  lookup-segments k clock self (s ∷ segs) =
      lookup-segments k clock (collect_segment d clock self s) segs
      ∙ ap (λ c. c || any_counted k self.filter self.filter_interpretor segs)
          (lookup-fold k self (leb self.rate_until s.ts) s clock (d.iter s.segment.socks)
            self.socket_cache)
      ∙ or_assoc (is_some (lookup k self.socket_cache)) _ _

  -- After a collection that does not panic, with a timestamp that is truncated to `u`: no two rows of the table are for the same local
  -- address, and an address has a row exactly if a segment within the collection window before `u`
  -- knows a socket with that address which passes the filter of the table and the custom filter.
  pub collect_rows :
      (self : SocketTable) (ts : Timestamp) (clock : ClockNano) (store : Store d)
      (i : Option Interpretor) (t : SocketTable) (u : Timestamp) (k : SocketAddr)
      → collect d self ts clock store i ≡ some t
      → trunc ts store.window ≡ some u
      → OneEach t.dataset
        × (has_row k t.dataset
            ≡ any_counted k self.filter i (recent d self.config u store.segments))
  unfolding collect_from lookup
  collect_rows self ts clock store i t u k h e =
      let c = collect-eq-some d self ts clock store i h in
      let same : c.0 ≡ u = cc (c.2) in
      let from = new_collector self.filter i c.1 in
      let segs = recent d self.config c.0 store.segments in
      let m = (collect_segments d clock from segs).socket_cache in
      let is = segments-IsCache clock from segs (record { keyed = tt; apart = tt }) in
      (
        subst (λ (v : SocketTable). OneEach v.dataset) (sym c.4)
            (OneEach-values m is.keyed is.apart),
        ap (λ (v : SocketTable). has_row k v.dataset) c.4
            ∙ has_row-lookup k m is.keyed
            ∙ lookup-segments k clock from segs
            ∙ ap (λ v. any_counted k self.filter i (recent d self.config v store.segments)) same,
      )
