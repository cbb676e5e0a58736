-- ===== src/Store/Writers.antt =====
-- ptraf/src/store.rs: tasks that store batches at the same time, and tasks that view the segments. The steps of a task are the
-- sections that the read-write lock of the segments makes: the look at the newest segment under the
-- read lock, the creation of segments under the write lock, and then, under the read lock again,
-- each change of the newest segment. Nobody else holds the lock during a section under the write
-- lock, so that is one step. The lock lets readers in whenever nobody writes. A view holds the read
-- lock while its segments are read one by one. A drawing of the user interface is a task that stores
-- a batch of no messages, which is what `oldest_timestamp` does to the store, and tasks that view.
pub mod Invariant
pub mod Progress
pub mod Finishing
pub mod Exclusion
pub mod Totals
pub mod Conservation
pub mod Examples
use ptraf.Shared.{
  ℕ, zero, suc, ◌+◌, ◌≡◌, Bool, true, false, Option, some, List, [], ◌∷◌, ◌++◌, back,
}
use ptraf.Shared.Results.{Outcome, done}
use ptraf.Std.Bytes.{Endian}
use ptraf.Clock.{Timestamp, trunc}
use ptraf.Common.Types.{SockMsgEvent}
use ptraf.Store.Dash.{Dash}
use ptraf.Store.Segment.Threads.{Op, ops_of}
use ptraf.Store.Segment.Threads
use ptraf.Store.Series.{TimeSegment, Store, fill, is_current, at_back}

-- What a task has yet to do; the timestamp that `filling` holds is truncated, and the number in
-- `opening` and `viewing` is that of the segments yet to be read.
pub data Phase : Type 0 where
  starting : Timestamp → List SockMsgEvent → Phase
  filling : Timestamp → List SockMsgEvent → Phase
  rereading : List SockMsgEvent → Phase
  writing : List Op → Phase
  opening : ℕ → Phase
  viewing : ℕ → Phase
  finished : Phase

-- The store, the number of tasks that hold the read lock, and the tasks.
pub record System (d : Dash) : Type 0 where
  pub store : Store d
  pub readers : ℕ
  pub tasks : List Phase

module _ {d : Dash} (e : Endian) where
  -- A step of one task: the store, the number of readers and the task, before and after.
  pub data Move (s : Store d) (n : ℕ) : Phase → Store d → ℕ → Phase → Type 0 where
    looked :
        (ts t : Timestamp) (ms : List SockMsgEvent)
        → trunc ts s.window ≡ some t
        → is_current d t (back s.segments) ≡ true
        → Move s n (starting ts ms) s (suc n) (writing (ops_of e ms))
    outdated :
        (ts t : Timestamp) (ms : List SockMsgEvent)
        → trunc ts s.window ≡ some t
        → is_current d t (back s.segments) ≡ false
        → Move s n (starting ts ms) s n (filling t ms)
    filled :
        (t : Timestamp) (ms : List SockMsgEvent) (q : List (TimeSegment d))
        → n ≡ 0
        → fill d s.window s.capacity (suc (suc t)) t s.segments ≡ done q
        → Move s n (filling t ms) (record s { segments = q }) n (rereading ms)
    reread : (ms : List SockMsgEvent) → Move s n (rereading ms) s (suc n) (writing (ops_of e ms))
    changed :
        (o : Op) (os : List Op)
        → Move s n
            (writing (o ∷ os))
            (record s { segments = at_back d (λ g. Threads.step d g o) s.segments })
            n
            (writing os)
    released : (m : ℕ) → n ≡ suc m → Move s n (writing []) s m finished
    opened : (k : ℕ) → Move s n (opening k) s (suc n) (viewing k)
    viewed : (k : ℕ) → Move s n (viewing (suc k)) s n (viewing k)
    closed : (m : ℕ) → n ≡ suc m → Move s n (viewing zero) s m finished

  -- A step of the system is a step of one of its tasks.
  pub data Step (u v : System d) : Type 0 where
    moved :
        (before after : List Phase) (p q : Phase)
        → u.tasks ≡ before ++ p ∷ after
        → v.tasks ≡ before ++ q ∷ after
        → Move u.store u.readers p v.store v.readers q
        → Step u v

  pub data Reach (u : System d) : System d → Type 0 where
    here : Reach u u
    next : {v w : System d} → Reach u v → Step v w → Reach u w
