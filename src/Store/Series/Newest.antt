-- ===== src/Store/Series/Newest.antt =====
-- The newest segment of a store, into which a batch goes.
use ptraf.Shared.{
  ℕ, zero, suc, ◌+◌, ◌-◌, ◌*◌, ◌/◌, ◌%◌, ◌<◌, max, ◌≡◌, refl, sym, ap, ◌∙◌, inl, inr, Option, none,
  some, List, [], ◌∷◌, ◌++◌, append_assoc, append-nil, back, back-append, option_map, arith,
  Option-cases,
}
use ptraf.Shared.Results.{done}
use ptraf.Std.Bytes.{Endian}
use ptraf.Clock.{Timestamp, u64_mod}
use ptraf.Clock.Trunc.{sub_mod_bounds}
use ptraf.Common.Types.{SockMsgEvent}
use ptraf.Store.Dash.{Dash}
use ptraf.Store.Segment.{Segment}
use ptraf.Store.Segment
use ptraf.Store.Series.{TimeSegment, Store, fresh, at_back, batch_update, oldest_timestamp}
use ptraf.Store.Series.Advance.{trim, gap, advance, windows_latest}
use ptraf.Store.Series.Invariant.{InWindows, IsStore, back-InWindows}
use ptraf.Store.Traffic.{merge}
use ptraf.Store.Socket.{Interest}
use ptraf.Store.Segment.Tally.{tally, IsStat}
use ptraf.Store.Segment.Counts.{stat_at, stat_at-batch_update}
use ptraf.Store.Series.Operations.{
  window_of, advanced, write_segment-advanced, batch_update-advanced,
}

module _ {ℓ} {A : Type ℓ} where
  back-trim : (n : ℕ) (xs : List A) → 0 < n → back (trim n xs) ≡ back xs
  back-trim n [] h = refl
  back-trim n (x ∷ []) h = ground arith
  back-trim n (x ∷ y ∷ xs) h = ground (arith, back-trim n (y ∷ xs) h)

module _ (d : Dash) where
  back-gap :
      (w k : ℕ) (q : List (TimeSegment d)) (s : TimeSegment d)
      → back q ≡ some s
      → (x : TimeSegment d) × (back (q ++ gap d w s.ts k) ≡ some x) × (x.ts ≡ s.ts + k * w)
  back-gap w zero q s e = (s, rw append-nil e, omega arith)
  back-gap w (suc k) q s e =
      let r = back-gap w k (q ++ fresh d (s.ts + w) ∷ []) (fresh d (s.ts + w)) (back-append q _) in
      (
        r.0,
        ap back (sym (append_assoc q (fresh d (s.ts + w) ∷ []) (gap d w (s.ts + w) k))) ∙ r.1,
        omega (arith, r.2),
      )

  -- The later of a timestamp and that of a segment, if there is one.
  abbrev pub latest : Timestamp → Option (TimeSegment d) → Timestamp
  latest ts none = ts
  latest ts (some s) = max ts s.ts

  back-advance :
      (n w : ℕ) (ts : Timestamp) (q : List (TimeSegment d))
      → 0 < n
      → 0 < w
      → ts % w ≡ 0
      → InWindows w q
      → (x : TimeSegment d) × (back (advance d n w ts q) ≡ some x) × (x.ts ≡ latest ts (back q))
  back-advance n w ts q hn hw ht h = elim (Option-cases (back q)) [
    | inl e ↦ rw e (fresh d ts, refl, refl)
    | inr (s, e) ↦
        let r = back-gap w ((ts - s.ts) / w) q s e in
        rw e (
          r.0,
          back-trim n _ hn ∙ r.1,
          r.2 ∙ windows_latest w ts s.ts ht (back-InWindows w q s h e),
        )
  ]

  -- The newest segment after `write_segment`.
  pub newest-advanced :
      (s : Store d) (ts : Timestamp)
      → IsStore s
      → (x : TimeSegment d) × (back (advanced d s ts).segments ≡ some x)
        × (x.ts ≡ latest (window_of d s ts) (back s.segments))
  newest-advanced s ts v =
      back-advance (max s.capacity 1) s.window (window_of d s ts) s.segments (omega arith)
        v.window_pos (sub_mod_bounds ts s.window v.window_pos).2 v.in_windows

  -- For a store that has the invariant and a timestamp `ts` that fits 64 bits, there is a
  -- segment to write to: the `unwrap` does not panic. The timestamp that is returned is the
  -- start of the window of `ts`, or that of the newest segment where the store has got further.
  pub oldest_timestamp_lem :
      (s : Store d) (ts : Timestamp)
      → IsStore s
      → ts < u64_mod
      → oldest_timestamp d s ts
        ≡ done (advanced d s ts, latest (window_of d s ts) (back s.segments))
  unfolding oldest_timestamp
  oldest_timestamp_lem s ts v h =
      let n = newest-advanced s ts v in
      rw (write_segment-advanced d s ts v h, n.1) (ap (λ t. done (advanced d s ts, t)) n.2)

  pub back-at_back :
      (f : Segment d → Segment d) (q : List (TimeSegment d)) (x : TimeSegment d)
      → back q ≡ some x
      → back (at_back d f q) ≡ some (record x { segment = f x.segment })
  unfolding at_back
  back-at_back f [] x h = cc
  back-at_back f (y ∷ []) x h =
      ap (option_map (λ (z : TimeSegment d). record z { segment = f z.segment })) h
  back-at_back f (y ∷ z ∷ []) x h = back-at_back f (z ∷ []) x h
  back-at_back f (y ∷ z ∷ u ∷ q) x h = back-at_back f (z ∷ u ∷ q) x h

  -- For a store that has the invariant and a timestamp `ts` that fits 64 bits: a batch that is
  -- stored at `ts` is counted in one segment, that of the window of `ts` or the newest one where
  -- the store has got further. There the counters of an interest, which fit 64 bits before, grow
  -- by the bytes and packets of its messages that carry no error, modulo 2^64.
  pub batch_update_counts :
      (e : Endian) (s : Store d) (ts : Timestamp) (ms : List SockMsgEvent) (i : Interest)
      → IsStore s
      → ts < u64_mod
      → ((x : TimeSegment d)
          → back (advanced d s ts).segments ≡ some x
          → IsStat (stat_at d x.segment i))
      → (t : Store d) × (x : TimeSegment d) × (y : TimeSegment d) × (batch_update d e s ts ms
          ≡ done t)
        × (back (advanced d s ts).segments ≡ some x)
        × (back t.segments ≡ some y)
        × (y.ts ≡ latest (window_of d s ts) (back s.segments))
        × (stat_at d y.segment i ≡ merge (stat_at d x.segment i) (tally e i ms))
  batch_update_counts e s ts ms i v h fits =
      let n = newest-advanced s ts v in
      let g = λ (b : Segment d). Segment.batch_update d e b ms in
      (
        record s { segments = at_back d g (advanced d s ts).segments },
        n.0,
        record (n.0) { segment = g n.0.segment },
        batch_update-advanced d e s ts ms v h,
        n.1,
        back-at_back g (advanced d s ts).segments n.0 n.1,
        n.2,
        stat_at-batch_update d e n.0.segment ms i (fits n.0 n.1),
      )
