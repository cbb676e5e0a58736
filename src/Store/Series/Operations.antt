-- ===== src/Store/Series/Operations.antt =====
-- What each operation of the store does to a store that has the invariant.
use ptraf.Shared.{
  ℕ, ◌+◌, ◌-◌, ◌%◌, ◌≤◌, ◌<◌, max, ◌≡◌, refl, sym, ap, ◌∙◌, subst, inl, inr, true, List, [], ◌∷◌,
  append-nil, length, back, ==_iff, arith, Bool-cases, Option-cases, All,
}
use ptraf.Shared.Results.{Outcome, done, ◌>>=◌}
use ptraf.Std.Bytes.{Endian}
use ptraf.Clock.{Timestamp, u64_mod}
use ptraf.Clock.Trunc.{trunc-eq-some, sub_mod_bounds}
use ptraf.Common.Types.{SockMsgEvent}
use ptraf.Store.Dash.{Dash}
use ptraf.Store.Segment.{Segment}
use ptraf.Store.Segment
use ptraf.Store.Series.{TimeSegment, Store, new, is_current, write_segment, at_back, batch_update}
use ptraf.Store.Series.Advance.{advance, fill-advance, no_windows, trim_short}
use ptraf.Store.Series.Invariant.{
  IsStore, back-InWindows, advance-InWindows, length-advance, at_back-IsStore,
}

module _ (d : Dash) where
  -- A new store has the invariant.
  pub new-IsStore : (w c : ℕ) → 0 < w → w < u64_mod → IsStore (new d w c)
  unfolding new
  new-IsStore w c hw h = record {
    window_pos = hw;
    window_fits = h;
    bounded = omega arith;
    in_windows = tt;
  }

  -- The start of the window of a timestamp.
  abbrev pub window_of : Store d → Timestamp → Timestamp
  window_of s ts = ts - ts % s.window

  -- The store with every window up to that of the timestamp.
  abbrev pub advanced : Store d → Timestamp → Store d
  advanced s ts = record s {
    segments = advance d (max s.capacity 1) s.window (window_of s ts) s.segments;
  }

  pub advanced-IsStore : (s : Store d) (ts : Timestamp) → IsStore s → IsStore (advanced s ts)
  advanced-IsStore s ts v = record {
    window_pos = v.window_pos;
    window_fits = v.window_fits;
    bounded = length-advance (max s.capacity 1) s.window _ s.segments (omega arith);
    in_windows =
        advance-InWindows (max s.capacity 1) s.window _ s.segments
          (sub_mod_bounds ts s.window v.window_pos).2 v.in_windows;
  }

  advance_current :
      (n w : ℕ) (ts : Timestamp) (q : List (TimeSegment d))
      → length q ≤ n
      → is_current d ts (back q) ≡ true
      → advance d n w ts q ≡ q
  advance_current n w ts q hl h = elim (Option-cases (back q)) [
    | inl e ↦ let f = rw e at h in cc
    | inr (x, e) ↦
        let same : x.ts ≡ ts = let f = rw e at h in (==_iff x.ts ts).0 f in
        rw (e, no_windows w ts x.ts (omega arith), append-nil) (trim_short n q hl)
  ]

  -- For a store that has the invariant and a timestamp that fits 64 bits, the loop ends, nothing
  -- panics, and the store is extended as the reference says.
  pub write_segment-advanced :
      (s : Store d) (ts : Timestamp)
      → IsStore s
      → ts < u64_mod
      → write_segment d s ts ≡ done (advanced s ts)
  unfolding write_segment
  write_segment-advanced s ts v h =
      rw (trunc-eq-some ts s.window h v.window_pos v.window_fits)
        (elim (Bool-cases (is_current d (window_of s ts) (back s.segments))) [
          | inl current ↦ rw current (
              ap (λ q. done (record s { segments = q }))
                (sym (
                  advance_current (max s.capacity 1) s.window (window_of s ts) s.segments v.bounded
                    current)))
          | inr other ↦ rw (
            other,
            fill-advance d s.window s.capacity (window_of s ts) s.segments v.window_pos v.bounded
                (omega arith) b.2 (λ x e. back-InWindows s.window s.segments x v.in_windows e),
          )
        ])
    where
      b : (window_of s ts ≤ ts) × (ts < window_of s ts + s.window) × (window_of s ts % s.window ≡ 0)
      b = sub_mod_bounds ts s.window v.window_pos

  -- Storing a batch changes the newest segment of the store so extended, and no other.
  pub batch_update-advanced :
      (e : Endian) (s : Store d) (ts : Timestamp) (ms : List SockMsgEvent)
      → IsStore s
      → ts < u64_mod
      → batch_update d e s ts ms
        ≡ done (record s {
          segments = at_back d (λ g. Segment.batch_update d e g ms) (advanced s ts).segments;
        })
  unfolding batch_update
  batch_update-advanced e s ts ms v h = rw (write_segment-advanced s ts v h)

  -- Storing a batch at a timestamp that fits 64 bits ends, does not panic and keeps the invariant
  -- and the capacity.
  pub batch_update-IsStore :
      (e : Endian) (s : Store d) (ts : Timestamp) (ms : List SockMsgEvent)
      → IsStore s
      → ts < u64_mod
      → (t : Store d) × (batch_update d e s ts ms ≡ done t) × IsStore t × (t.capacity ≡ s.capacity)
  batch_update-IsStore e s ts ms v h = (
    record s { segments = at_back d (λ g. Segment.batch_update d e g ms) (advanced s ts).segments },
    batch_update-advanced e s ts ms v h,
    at_back-IsStore (λ g. Segment.batch_update d e g ms) (advanced s ts) (advanced-IsStore s ts v),
    refl,
  )

  -- The batches that the program stores, one after the other.
  unfoldable pub store_all :
      Endian → Store d → List (Timestamp × List SockMsgEvent) → Outcome (Store d)
  unfolding batch_update
  store_all e s [] = done s
  store_all e s ((ts, ms) ∷ rest) = batch_update d e s ts ms >>= λ t. store_all e t rest

  store_all-IsStore :
      (e : Endian) (s : Store d) (bs : List (Timestamp × List SockMsgEvent))
      → IsStore s
      → All (λ b. b.0 < u64_mod) bs
      → (t : Store d) × (store_all e s bs ≡ done t) × IsStore t × (t.capacity ≡ s.capacity)
  unfolding store_all
  store_all-IsStore e s [] v h = (s, refl, v, refl)
  store_all-IsStore e s ((ts, ms) ∷ rest) v h =
      let one = batch_update-IsStore e s ts ms v h.0 in
      let more = store_all-IsStore e one.0 rest one.2 h.1 in
      (more.0, ap (λ o. o >>= λ t. store_all e t rest) one.1 ∙ more.1, more.2, more.3 ∙ one.3)

  -- From a new store whose window is not 0 and fits 64 bits, any history of batches whose
  -- timestamps fit 64 bits, in any order, is stored without a panic, and ends in a store of at most
  -- the capacity (or one) segments in consecutive windows.
  pub store_all-new :
      (e : Endian) (w c : ℕ) (bs : List (Timestamp × List SockMsgEvent))
      → 0 < w
      → w < u64_mod
      → All (λ b. b.0 < u64_mod) bs
      → (t : Store d) × (store_all e (new d w c) bs ≡ done t)
        × IsStore t
        × (length t.segments ≤ max c 1)
  unfolding new
  store_all-new e w c bs hw h hb =
      let r = store_all-IsStore e (new d w c) bs (new-IsStore w c hw h) hb in
      (r.0, r.1, r.2, subst (λ n. length r.0.segments ≤ max n 1) r.3 r.2.bounded)
