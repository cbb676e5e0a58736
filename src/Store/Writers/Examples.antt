-- ===== src/Store/Writers/Examples.antt =====
-- The theorems on the tasks that store batches, on concrete tasks.
use ptraf.Shared.{◌<◌, ◌≡◌, refl, ◌≤◌, ◌⊎◌, some, [], ◌∷◌, back, All, arith}
use ptraf.Std.Bytes.{little}
use ptraf.Clock.{trunc}
use ptraf.Store.Socket.{all}
use ptraf.Store.Dash.{simple_dash}
use ptraf.Store.Segment.Tally.{plus, wrapped}
use ptraf.Store.Segment.Threads.{ops_of}
use ptraf.Store.Series.{TimeSegment}
use ptraf.Store.Series.Invariant.{IsStore}
use ptraf.Store.Examples.{received, sent, store, store-IsStore, first}
use ptraf.Store.Writers.{
  starting, filling, writing, viewing, System, Step, looked, moved, Reach, here, next,
}
use ptraf.Store.Writers.Invariant.{IsSystem, Reach-IsSystem, Finished}
use ptraf.Store.Writers.Progress.{progress}
use ptraf.Store.Writers.Exclusion.{windows, older, Step-windows}
use ptraf.Store.Writers.Finishing.{works, steps, steps_end, finishes}
use ptraf.Store.Writers.Totals.{total}
use ptraf.Store.Writers.Conservation.{pendings, dropped, Reach-conserves}

-- Two tasks with a batch each, a window apart, and an empty store.
abbrev two : System simple_dash
two = record {
  store = store;
  readers = 0;
  tasks = starting 1100 (received ∷ []) ∷ starting 1350 (sent ∷ []) ∷ [];
}

two-IsSystem : IsSystem two
two-IsSystem = record {
  store = store-IsStore;
  readers = refl;
  tasks = (omega arith, (omega arith, tt));
}

-- One task is storing its batch, the next one waits for the write lock, the third one has not
-- looked at the store yet, and the last one views the segments.
abbrev three : System simple_dash
three = record {
  store = record store { segments = first ∷ [] };
  readers = 2;
  tasks =
      writing (ops_of little (received ∷ []))
      ∷ filling 1250 (sent ∷ [])
      ∷ starting 1100 (sent ∷ [])
      ∷ viewing 1
      ∷ [];
}

three-IsSystem : IsSystem three
three-IsSystem = record {
  store = record {
    window_pos = omega arith;
    window_fits = omega arith;
    bounded = omega arith;
    in_windows = refl;
  };
  readers = refl;
  tasks = (omega arith, ((omega arith, refl), (omega arith, (tt, tt))));
}

window_of_1100 : trunc 1100 250 ≡ some 1000
unfolding trunc
window_of_1100 = refl

-- The third task takes the read lock.
abbrev three' : System simple_dash
three' = record {
  store = three.store;
  readers = 3;
  tasks =
      writing (ops_of little (received ∷ []))
      ∷ filling 1250 (sent ∷ [])
      ∷ writing (ops_of little (sent ∷ []))
      ∷ viewing 1
      ∷ [];
}

abbrev third_looks : Step little three three'
third_looks =
    moved (writing (ops_of little (received ∷ [])) ∷ filling 1250 (sent ∷ []) ∷ []) (viewing 1 ∷ [])
      (starting 1100 (sent ∷ [])) (writing (ops_of little (sent ∷ []))) refl refl
      (looked 1100 1000 (sent ∷ []) window_of_1100 refl)

Reach-IsSystem_example : IsSystem three'
Reach-IsSystem_example = Reach-IsSystem little (next here third_looks) three-IsSystem

Step-windows_example :
    ((x : TimeSegment simple_dash) × (back three.store.segments ≡ some x))
    × (windows three'.store ≡ windows three.store)
    × (older three'.store.segments ≡ older three.store.segments)
Step-windows_example =
    Step-windows little three three' []
      (filling 1250 (sent ∷ []) ∷ starting 1100 (sent ∷ []) ∷ viewing 1 ∷ [])
      (writing (ops_of little (received ∷ []))) three-IsSystem refl refl third_looks

progress_example : All Finished two.tasks ⊎ ((v : System simple_dash) × Step little two v)
progress_example = progress little two two-IsSystem

steps_end_example :
    (steps little (next here third_looks) ≤ works little three.tasks)
    × ((All Finished three'.tasks × IsStore three'.store × (three'.readers ≡ 0))
        ⊎ ((w : System simple_dash) × Step little three' w
            × (steps little (next here third_looks) < works little three.tasks)))
steps_end_example = steps_end little three three' (next here third_looks) three-IsSystem

abbrev Finish : System simple_dash → Type 0
Finish u =
    (v : System simple_dash) × Reach little u v
    × IsStore v.store
    × (v.readers ≡ 0)
    × All Finished v.tasks

finishes_example : Finish two
finishes_example = finishes little two two-IsSystem

-- A run of the two tasks to their ends.
abbrev two_finished : Finish two
two_finished = finishes little two two-IsSystem

Reach-conserves_example :
    wrapped
      (plus (total simple_dash all two.store.segments) (pendings simple_dash all little two.tasks))
    ≡ wrapped (
        plus
          (total simple_dash all (dropped two_finished.1))
          (total simple_dash all two_finished.0.store.segments))
Reach-conserves_example =
    Reach-conserves simple_dash all little two two_finished.0 two_finished.1 two-IsSystem
      two_finished.4
