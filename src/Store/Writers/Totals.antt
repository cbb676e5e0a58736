-- ===== src/Store/Writers/Totals.antt =====
-- ptraf/src/store.rs: what segments have counted, summed up.
use ptraf.Shared.{
  ℕ, zero, suc, ◌+◌, ◌-◌, ◌/◌, ◌<◌, ◌≡◌, refl, sym, ap, ◌∙◌, inl, inr, Bool, true, false, Option,
  some, none, List, [], ◌∷◌, ◌++◌, length, back, leb, if◌then◌else◌, option_map, unwrap_or,
  Bool-cases, arith,
}
use ptraf.Shared.Int.{pos}
use ptraf.Clock.{Timestamp}
use ptraf.Common.Types.{Channel, tx, rx}
use ptraf.Store.Traffic.{
  Stat, Metrics, default_stat, default_metrics, merge, stat_of, increment_channel,
}
use ptraf.Store.Socket.{Interest, interest_eq}
use ptraf.Store.Dash.{Dash, modified}
use ptraf.Store.Segment.{Segment, count, stat_by_interest}
use ptraf.Store.Segment.Tally.{plus, share_of, wrapped, wrapped-cong}
use ptraf.Store.Segment.Counts.{stat_at, at_key}
use ptraf.Store.Segment.Threads.{
  Op, add_socket, count_packet, ops_of, op_share, op_tally, op_tally-ops_of,
}
use ptraf.Store.Segment.Threads
use ptraf.Store.Series.{TimeSegment, fresh, at_back}
use ptraf.Store.Series.Advance.{trim, gap, extended}
use ptraf.Store.Writers.Invariant.{has_back}

pub plus_assoc : (a b c : Stat) → plus (plus a b) c ≡ plus a (plus b c)
plus_assoc a b c = ground arith

pub plus_comm : (a b : Stat) → plus a b ≡ plus b a
plus_comm a b = ground arith

pub plus-zero : (a : Stat) → plus default_stat a ≡ a
plus-zero a = ground arith

pub plus_swap : (a b c : Stat) → plus (plus a b) c ≡ plus (plus a c) b
plus_swap a b c = ground arith

pub plus_rotate : (a b c : Stat) → plus (plus a b) c ≡ plus (plus c a) b
plus_rotate a b c = ground arith

pub plus_third : (a b c d : Stat) → plus a (plus b (plus c d)) ≡ plus b (plus (plus a c) d)
plus_third a b c d = ground arith

pub plus_last : (a b c d : Stat) → plus (plus a (plus b c)) d ≡ plus a (plus b (plus c d))
plus_last a b c d = ground arith

pub wrapped-cong_right :
    (c a b : Stat) → wrapped a ≡ wrapped b → wrapped (plus c a) ≡ wrapped (plus c b)
wrapped-cong_right c a b h =
    ap wrapped (plus_comm c a) ∙ wrapped-cong a b c h ∙ ap wrapped (plus_comm b c)

-- One packet that is counted under a key, modulo 2 ^ 64.
wrapped-modified :
    (c : Channel) (len : ℕ) (o : Option Metrics) (b : Bool)
    → wrapped (
        unwrap_or
          (option_map stat_of (
            if b
            then some
                (modified (increment_channel c len 1) (increment_channel c len 1 default_metrics) o)
            else o))
          default_stat)
      ≡ wrapped (plus (unwrap_or (option_map stat_of o) default_stat) (share_of (pos len) c b))
unfolding stat_of increment_channel merge
wrapped-modified c len o false = ground arith
wrapped-modified tx len none true = ground arith
wrapped-modified rx len none true = ground arith
wrapped-modified tx len (some m) true = ground arith
wrapped-modified rx len (some m) true = ground arith

-- What `trim` takes off the front.
abbrev pub cut {ℓ} : {A : Type ℓ} → ℕ → List A → List A
cut n [] = []
cut n (x ∷ xs) = let rest = cut n xs in if leb (suc (length xs)) n then [] else x ∷ rest

-- The segments that an extension of the store to `ts` drops, oldest first, given the newest one.
abbrev pub cut_off :
    (d : Dash)
    → ℕ
    → ℕ
    → Timestamp
    → List (TimeSegment d)
    → Option (TimeSegment d)
    → List (TimeSegment d)
cut_off d n w ts q none = []
cut_off d n w ts q (some s) = cut n (q ++ gap d w s.ts ((ts - s.ts) / w))

module _ (d : Dash) (i : Interest) where
  -- What the segments have counted for an interest.
  abbrev pub total : List (TimeSegment d) → Stat
  total [] = default_stat
  total (x ∷ q) = plus (stat_at d x.segment i) (total q)

  pub total-append : (xs ys : List (TimeSegment d)) → total (xs ++ ys) ≡ plus (total xs) (total ys)
  total-append [] ys = sym (plus-zero (total ys))
  total-append (x ∷ xs) ys =
      ap (plus (stat_at d x.segment i)) (total-append xs ys)
      ∙ sym (plus_assoc (stat_at d x.segment i) (total xs) (total ys))

  pub stat_at-fresh : (ts : Timestamp) → stat_at d (fresh d ts).segment i ≡ default_stat
  unfolding stat_by_interest
  stat_at-fresh ts = rw (d.get-default_index i) refl

  pub total-gap : (w : ℕ) (last : Timestamp) (k : ℕ) → total (gap d w last k) ≡ default_stat
  total-gap w last zero = refl
  total-gap w last (suc k) =
      ap (λ s. plus s (total (gap d w (last + w) k))) (stat_at-fresh (last + w))
      ∙ plus-zero _
      ∙ total-gap w (last + w) k

  pub total-cut :
      (n : ℕ) (q : List (TimeSegment d)) → total q ≡ plus (total (cut n q)) (total (trim n q))
  total-cut n [] = refl
  total-cut n (x ∷ q) = elim (Bool-cases (leb (suc (length q)) n)) [
    | inl fits ↦ rw fits (sym (plus-zero (total (x ∷ q))))
    | inr over ↦ rw over (
        ap (plus (stat_at d x.segment i)) (total-cut n q)
        ∙ sym (plus_assoc (stat_at d x.segment i) (total (cut n q)) (total (trim n q))))
  ]

  -- An extension of the store adds nothing to what is counted.
  pub total-extended :
      (n w : ℕ) (ts : Timestamp) (q : List (TimeSegment d)) (o : Option (TimeSegment d))
      → back q ≡ o
      → total q ≡ plus (total (cut_off d n w ts q o)) (total (extended d n w ts q o))
  total-extended n w ts [] none h =
      sym (plus-zero _ ∙ plus_comm _ default_stat ∙ plus-zero _ ∙ stat_at-fresh ts)
  total-extended n w ts (x ∷ q) none h = let (s, e) = has_back (x ∷ q) (omega arith) in cc
  total-extended n w ts q (some s) h =
      let more = gap d w s.ts ((ts - s.ts) / w) in
      let all : total (q ++ more) ≡ total q =
        total-append q more
        ∙ ap (plus (total q)) (total-gap w s.ts ((ts - s.ts) / w))
        ∙ plus_comm (total q) default_stat
        ∙ plus-zero (total q) in
      sym all ∙ total-cut n (q ++ more)

  pub stat_at-step :
      (s : Segment d) (o : Op)
      → wrapped (stat_at d (Threads.step d s o) i) ≡ wrapped (plus (stat_at d s i) (op_share i o))
  unfolding Threads.step count stat_by_interest
  stat_at-step s (add_socket x) = ap wrapped (sym (plus_comm _ default_stat ∙ plus-zero _))
  stat_at-step s (count_packet c len k) =
      ap (λ o. wrapped (unwrap_or (option_map stat_of o) default_stat))
        (d.get-upsert s.index k _ _ i ∙ at_key d s.index _ _ k i)
      ∙ wrapped-modified c len (d.get s.index i) (interest_eq k i)

  -- A change of the newest segment adds what it counts to the total.
  pub total-at_back :
      (o : Op) (q : List (TimeSegment d))
      → 0 < length q
      → wrapped (total (at_back d (λ g. Threads.step d g o) q))
        ≡ wrapped (plus (total q) (op_share i o))
  unfolding at_back
  total-at_back o [] h = absurd (omega arith)
  total-at_back o (x ∷ []) h =
      wrapped-cong _ _ default_stat (stat_at-step x.segment o)
      ∙ ap wrapped (plus_swap (stat_at d x.segment i) (op_share i o) default_stat)
  total-at_back o (x ∷ y ∷ q) h =
      ap wrapped (plus_comm (stat_at d x.segment i) _)
      ∙ wrapped-cong _ _ (stat_at d x.segment i) (total-at_back o (y ∷ q) (omega arith))
      ∙ ap wrapped (plus_rotate (total (y ∷ q)) (op_share i o) (stat_at d x.segment i))
