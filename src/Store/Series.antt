-- ===== src/Store/Series.antt =====
-- ptraf/src/store.rs: the store, a bounded sequence of segments, oldest first, one for each window.
-- A method that changes the store returns the new store; the lock is taken by one task here.
pub mod Advance
pub mod Invariant
pub mod Operations
pub mod Newest
use ptraf.Shared.{
  ℕ, zero, suc, ◌≡◌, Bool, true, false, Option, none, some, List, [], ◌∷◌, ◌++◌, tail, length,
  front, back, leb, ◌==◌, if◌then◌else◌, map,
}
use ptraf.Shared.Results.{Outcome, done, panicked, out_of_fuel, ◌>>=◌, or_panic}
use ptraf.Std.Bytes.{Endian}
use ptraf.Clock.{Timestamp, trunc, add}
use ptraf.Common.Types.{SockMsgEvent}
use ptraf.Store.Dash.{Dash}
use ptraf.Store.Segment.{Segment, default_segment}
use ptraf.Store.Segment

pub record TimeSegment (d : Dash) : Type 0 where
  pub ts : Timestamp
  pub segment : Segment d

pub record Store (d : Dash) : Type 0 where
  pub window : ℕ
  pub capacity : ℕ
  pub segments : List (TimeSegment d)

module _ (d : Dash) where
  unfoldable pub new : ℕ → ℕ → Store d
  new window capacity = record { window = window; capacity = capacity; segments = [] }

  abbrev pub fresh : Timestamp → TimeSegment d
  fresh ts = record { ts = ts; segment = default_segment d }

  -- The end of the loop's body: the oldest segment goes when the store is full.
  unfoldable pub push : ℕ → Timestamp → List (TimeSegment d) → List (TimeSegment d)
  push capacity ts dequeue =
      (if leb capacity (length dequeue) then tail dequeue else dequeue) ++ fresh ts ∷ []

  -- The loop of the slow path, on fuel.
  unfoldable pub fill :
      ℕ → ℕ → ℕ → Timestamp → List (TimeSegment d) → Outcome (List (TimeSegment d))
  unfolding push add
  fill window capacity zero ts dequeue = out_of_fuel
  fill window capacity (suc fuel) ts dequeue = elim (back dequeue) [
    | none ↦ fill window capacity fuel ts (push capacity ts dequeue)
    | some segment ↦ elim (leb ts segment.ts) [
      | true ↦ done dequeue
      | false ↦ or_panic (add segment.ts window) >>= λ t.
          fill window capacity fuel ts (push capacity t dequeue)
    ]
  ]

  -- The test of the fast path.
  abbrev pub is_current : Timestamp → Option (TimeSegment d) → Bool
  is_current ts none = false
  is_current ts (some segment) = segment.ts == ts

  -- Each round adds at least a nanosecond to the newest timestamp, so `ts + 2` rounds are enough.
  unfoldable pub write_segment : Store d → Timestamp → Outcome (Store d)
  unfolding trunc fill
  write_segment self ts = or_panic (trunc ts self.window) >>= λ t.
      if is_current t (back self.segments)
      then done self
      else (fill self.window self.capacity (suc (suc t)) t self.segments >>= λ dequeue.
          done (record self { segments = dequeue }))

  -- A change through the reference to the newest segment.
  unfoldable pub at_back : (Segment d → Segment d) → List (TimeSegment d) → List (TimeSegment d)
  at_back f [] = []
  at_back f (s ∷ []) = record s { segment = f s.segment } ∷ []
  at_back f (s ∷ t ∷ rest) = s ∷ at_back f (t ∷ rest)

  unfoldable pub batch_update : Endian → Store d → Timestamp → List SockMsgEvent → Outcome (Store d)
  unfolding write_segment at_back
  batch_update e self ts messages = write_segment self ts >>= λ s.
      done (record s { segments = at_back (λ g. Segment.batch_update d e g messages) s.segments })

  -- The timestamp of the segment that `write_segment` returns; `back().unwrap()` panics if there
  -- is none.
  unfoldable pub oldest_timestamp : Store d → Timestamp → Outcome (Store d × Timestamp)
  unfolding write_segment
  oldest_timestamp self ts =
      write_segment self ts >>= λ s. or_panic (back s.segments) >>= λ segment. done (s, segment.ts)

  -- `TimeSegmentsView`.
  unfoldable pub len : Store d → ℕ
  len self = length self.segments

  unfoldable pub is_empty : Store d → Bool
  unfolding len
  is_empty self = len self == 0

  unfoldable pub oldest : Store d → Option (TimeSegment d)
  oldest self = front self.segments

  unfoldable pub newest : Store d → Option (TimeSegment d)
  newest self = back self.segments
