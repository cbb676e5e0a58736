-- ===== src/Ui/SocketTable/Collected.antt =====
-- What a collection puts into the table.
use mathlib.Core.List.{foldl}
use ptraf.Shared.{
  ℕ, ◌-◌, ◌%◌, ◌<◌, max, ◌≡◌, refl, sym, ap, subst, ◌∙◌, Bool, true, Option, none, some, List, [],
  ◌∷◌, map, option_map, and_then, All, if_cases, arith, leb,
}
use ptraf.Std.Ip.{SocketAddr}
use ptraf.Clock.Trunc.{trunc-eq-some}
use ptraf.Clock.{u64_mod, Timestamp, ClockNano, trunc}
use ptraf.Filter.Interpretor.{Interpretor}
use ptraf.Store.Socket.{Socket}
use ptraf.Store.Dash.{Dash}
use ptraf.Store.Series.{Store, TimeSegment}
use ptraf.Ui.Filter.{Filter}
use ptraf.Ui.SocketTable.{
  Entry, SocketCache, SocketTable, SocketTableCollector, passes, collect_socket, collect_segment,
  collect_segments, collect, new_collector, recent, collect_from, rate_start,
}
use ptraf.Ui.SocketTable.Cache.{All-upsert}

-- An entry that the filters of a collector let through.
abbrev pub Passes : Filter → Option Interpretor → Entry → Type 0
Passes f i e = (passes f i e.socket ≡ true) × (e.pid ≡ e.socket.pid)

abbrev AllPass : Filter → Option Interpretor → SocketCache → Type 0
AllPass f i cache = All (λ (e : SocketAddr × Entry). Passes f i e.1) cache

module _ (d : Dash) where
  collect_socket-AllPass :
      (self : SocketTableCollector) (b : Bool) (s : TimeSegment d) (clock : ClockNano)
      (cache : SocketCache) (x : Socket)
      → AllPass self.filter self.filter_interpretor cache
      → AllPass self.filter self.filter_interpretor (collect_socket d self b s clock cache x)
  unfolding collect_socket
  collect_socket-AllPass self b s clock cache x h =
      if_cases (AllPass self.filter self.filter_interpretor)
        (passes self.filter self.filter_interpretor x)
        (λ ok.
          All-upsert (Passes self.filter self.filter_interpretor) x.local _ _ cache (λ e p. p)
            (ok, refl) h)
        (λ no'. h)

  fold-AllPass :
      (self : SocketTableCollector) (b : Bool) (s : TimeSegment d) (clock : ClockNano)
      (xs : List Socket) (cache : SocketCache)
      → AllPass self.filter self.filter_interpretor cache
      → AllPass self.filter self.filter_interpretor
          (foldl (collect_socket d self b s clock) cache xs)
  fold-AllPass self b s clock [] cache h = h
  fold-AllPass self b s clock (x ∷ xs) cache h =
      fold-AllPass self b s clock xs _ (collect_socket-AllPass self b s clock cache x h)

  segments-AllPass :
      (clock : ClockNano) (self : SocketTableCollector) (segs : List (TimeSegment d))
      → AllPass self.filter self.filter_interpretor self.socket_cache
      → AllPass self.filter self.filter_interpretor
          (collect_segments d clock self segs).socket_cache
  unfolding collect_segments
  segments-AllPass clock self [] h = h
  segments-AllPass clock self (s ∷ segs) h =
      segments-AllPass clock (collect_segment d clock self s) segs (
        fold-AllPass self (leb self.rate_until s.ts) s clock (d.iter s.segment.socks)
          self.socket_cache h)

  All-values :
      (P : Entry → Type 0) (m : SocketCache)
      → All (λ (e : SocketAddr × Entry). P e.1) m
      → All P (map (λ (e : SocketAddr × Entry). e.1) m)
  All-values P [] h = tt
  All-values P (e ∷ m) h = (h.0, All-values P m h.1)

  -- A collection that ends is a collection from the two truncated timestamps.
  pub collect-eq-some :
      (self : SocketTable) (ts : Timestamp) (clock : ClockNano) (store : Store d)
      (i : Option Interpretor) {t : SocketTable}
      → collect d self ts clock store i ≡ some t
      → (u : Timestamp) × (r : Timestamp) × (trunc ts store.window ≡ some u)
        × (rate_start d self u store.window ≡ some r)
        × (t ≡ collect_from d self u clock store i r)
  unfolding collect
  collect-eq-some self ts clock store i {t} h = go (trunc ts store.window) refl h
    where
      more :
          (u : Timestamp) (o : Option Timestamp)
          → trunc ts store.window ≡ some u
          → rate_start d self u store.window ≡ o
          → option_map (collect_from d self u clock store i) o ≡ some t
          → (u : Timestamp) × (r : Timestamp) × (trunc ts store.window ≡ some u)
            × (rate_start d self u store.window ≡ some r)
            × (t ≡ collect_from d self u clock store i r)
      more u none e f q = cc
      more u (some r) e f q = (u, r, e, f, cc)

      go :
          (o : Option Timestamp)
          → trunc ts store.window ≡ o
          → and_then o (λ u.
            option_map (collect_from d self u clock store i) (rate_start d self u store.window))
            ≡ some t
          → (u : Timestamp) × (r : Timestamp) × (trunc ts store.window ≡ some u)
            × (rate_start d self u store.window ≡ some r)
            × (t ≡ collect_from d self u clock store i r)
      go none e q = cc
      go (some u) e q = more u (rate_start d self u store.window) e refl q

  -- A collection keeps the filter of the table.
  pub collect-filter :
      (self : SocketTable) (ts : Timestamp) (clock : ClockNano) (store : Store d)
      (i : Option Interpretor) {t : SocketTable}
      → collect d self ts clock store i ≡ some t
      → t.filter ≡ self.filter
  unfolding collect_from
  collect-filter self ts clock store i h =
      ap (λ (t : SocketTable). t.filter) (collect-eq-some self ts clock store i h).4

  -- Whatever the store holds, every row of the table after a collection is a socket that matches
  -- the filter of the view and the custom filter, and shows the process of that socket.
  pub collect-Passes :
      (self : SocketTable) (ts : Timestamp) (clock : ClockNano) (store : Store d)
      (i : Option Interpretor) {t : SocketTable}
      → collect d self ts clock store i ≡ some t
      → All (Passes self.filter i) t.dataset
  unfolding collect_from
  collect-Passes self ts clock store i {t} h =
      let c = collect-eq-some self ts clock store i h in
      subst (λ v. All (Passes self.filter i) v.dataset) (sym c.4)
        (All-values (Passes self.filter i) _ (
          segments-AllPass clock (new_collector self.filter i c.1)
            (recent d self.config c.0 store.segments) tt))

  -- With a window that is not 0 and fits 64 bits, and a timestamp that does, a collection does
  -- not panic, and every row of the table after it is a socket that matches the filter of the
  -- view and the custom filter, and shows the process of that socket.
  pub collect_total :
      (self : SocketTable) (ts : Timestamp) (clock : ClockNano) (store : Store d)
      (i : Option Interpretor)
      → 0 < store.window
      → store.window < u64_mod
      → ts < u64_mod
      → (t : SocketTable) × (collect d self ts clock store i ≡ some t)
        × All (Passes self.filter i) t.dataset
  unfolding collect rate_start
  collect_total self ts clock store i hw h hts =
      (t, done', collect-Passes self ts clock store i done')
    where
      u : Timestamp
      u = ts - ts % store.window

      m : ℕ
      m = max (u - self.config.rate_window) store.window

      t : SocketTable
      t = collect_from d self u clock store i (m - m % store.window)

      done' : collect d self ts clock store i ≡ some t
      done' =
          ap
            (λ o. and_then o (λ v.
              option_map (collect_from d self v clock store i) (rate_start d self v store.window)))
            (trunc-eq-some ts store.window hts hw h)
          ∙ ap (option_map (collect_from d self u clock store i))
              (trunc-eq-some m store.window (omega arith) hw h)
