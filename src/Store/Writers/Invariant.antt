-- ===== src/Store/Writers/Invariant.antt =====
-- ptraf/src/store.rs: the invariant of the store and the tasks that write to it.
use ptraf.Shared.{
  ℕ, suc, ◌+◌, ◌-◌, ◌%◌, ◌<◌, max, ◌≡◌, refl, sym, ap, ◌∙◌, subst, true, some, List, [], ◌∷◌, ◌++◌,
  length, back, All, arith,
}
use ptraf.Shared.Results.{Outcome, done}
use ptraf.Std.Bytes.{Endian}
use ptraf.Clock.{Timestamp, u64_mod}
use ptraf.Clock.Trunc.{trunc_window}
use ptraf.Store.Dash.{Dash}
use ptraf.Store.Segment.{Segment}
use ptraf.Store.Series.{TimeSegment, Store, fill, is_current, at_back}
use ptraf.Store.Segment.Threads
use ptraf.Store.Series.Advance.{advance, fill-advance}
use ptraf.Store.Series.Invariant.{IsStore, at_back-IsStore, length-at_back, back-InWindows}
use ptraf.Store.Series.Operations.{advanced, advanced-IsStore}
use ptraf.Store.Series.Newest.{newest-advanced}
use ptraf.Store.Writers.{
  Phase, starting, filling, rereading, writing, opening, viewing, finished, System, Move, looked,
  outdated, filled, reread, changed, released, opened, viewed, closed, Step, moved, Reach, here,
  next,
}

-- What a task relies on.
abbrev pub Relies : {d : Dash} → Store d → Phase → Type 0
Relies s (starting ts ms) = ts < u64_mod
Relies s (filling t ms) = (t < u64_mod) × (t % s.window ≡ 0)
Relies s (rereading ms) = 0 < length s.segments
Relies s (writing os) = 0 < length s.segments
Relies s (opening k) = Unit {0}
Relies s (viewing k) = Unit {0}
Relies s finished = Unit {0}

abbrev pub Finished : Phase → Type 0
Finished p = p ≡ finished

-- Whether a task holds the read lock, as a number, and how many tasks do.
abbrev pub holds : Phase → ℕ
holds (writing os) = 1
holds (viewing k) = 1
holds _ = 0

abbrev pub holders : List Phase → ℕ
holders [] = 0
holders (p ∷ ps) = holds p + holders ps

pub holders-append : (ps qs : List Phase) → holders (ps ++ qs) ≡ holders ps + holders qs
holders-append [] qs = omega arith
holders-append (p ∷ ps) qs = let h = holders-append ps qs in omega (arith, h)

-- The store has its invariant, the readers are the tasks that hold the lock, and every task has
-- what it relies on.
pub record IsSystem {d : Dash} (u : System d) : Type 0 where
  pub store : IsStore u.store
  pub readers : u.readers ≡ holders u.tasks
  pub tasks : All (Relies u.store) u.tasks

-- A property of one element of a list, and of the others with another in its place.
pub All-at {ℓ κ} :
    {A : Type ℓ} (P : A → Type κ) (before after : List A) (x : A)
    → All P (before ++ x ∷ after)
    → P x
All-at P [] after x h = h.0
All-at P (b ∷ before) after x h = All-at P before after x h.1

All-weaken {ℓ κ} :
    {A : Type ℓ} (P Q : A → Type κ) → ((a : A) → P a → Q a) → (xs : List A) → All P xs → All Q xs
All-weaken P Q f [] h = tt
All-weaken P Q f (x ∷ xs) h = (f x h.0, All-weaken P Q f xs h.1)

pub All-change {ℓ κ} :
    {A : Type ℓ} (P Q : A → Type κ)
    → ((a : A) → P a → Q a)
    → (before after : List A) (x y : A) → Q y
    → All P (before ++ x ∷ after)
    → All Q (before ++ y ∷ after)
All-change P Q f [] after x y q h = (q, All-weaken P Q f after h.1)
All-change P Q f (b ∷ before) after x y q h = (f b h.0, All-change P Q f before after x y q h.1)

abbrev pub done_value {ℓ} : {A : Type ℓ} → Outcome A → A → A
done_value (done a) b = a
done_value _ b = b

module _ {d : Dash} where
  length-back : (q : List (TimeSegment d)) {x : TimeSegment d} → back q ≡ some x → 0 < length q
  length-back [] h = cc
  length-back (y ∷ q) h = omega arith

  pub has_back : (q : List (TimeSegment d)) → 0 < length q → (x : TimeSegment d) × (back q ≡ some x)
  has_back [] h = absurd (omega arith)
  has_back (x ∷ []) h = (x, refl)
  has_back (x ∷ y ∷ q) h = has_back (y ∷ q) (omega arith)

  -- The loop from a truncated timestamp extends the store to it.
  pub fill-advanced :
      (s : Store d) (t : Timestamp)
      → IsStore s
      → t < u64_mod
      → t % s.window ≡ 0
      → fill d s.window s.capacity (suc (suc t)) t s.segments ≡ done (advanced d s t).segments
  fill-advanced s t v h m =
      fill-advance d s.window s.capacity t s.segments v.window_pos v.bounded (omega arith) m
        (λ x e. back-InWindows s.window s.segments x v.in_windows e)
      ∙ ap (λ r. done (advance d (max s.capacity 1) s.window r s.segments)) (same t m)
    where
      same : (t : ℕ) → t % s.window ≡ 0 → t ≡ t - t % s.window
      same t m = omega (arith, m)

  advanced-length : (s : Store d) (t : Timestamp) → IsStore s → 0 < length (advanced d s t).segments
  advanced-length s t v =
      let n = newest-advanced d s t v in length-back (advanced d s t).segments n.1

  current_length :
      (t : Timestamp) (q : List (TimeSegment d)) → is_current d t (back q) ≡ true → 0 < length q
  current_length t [] h = cc
  current_length t (x ∷ q) h = omega arith

  Relies-segments :
      (s : Store d) (q : List (TimeSegment d))
      → (0 < length s.segments → 0 < length q)
      → (r : Phase) → Relies s r
      → Relies (record s { segments = q }) r
  Relies-segments s q f (starting ts ms) h = h
  Relies-segments s q f (filling t ms) h = h
  Relies-segments s q f (rereading ms) h = f h
  Relies-segments s q f (writing os) h = f h
  Relies-segments s q f (opening k) h = tt
  Relies-segments s q f (viewing k) h = tt
  Relies-segments s q f finished h = tt

  -- What a step of a task keeps: the invariant of the store, what the other tasks rely on, and the
  -- balance of the readers.
  record Keeps (s : Store d) (n : ℕ) (p : Phase) (s' : Store d) (n' : ℕ) (q : Phase) : Type 0 where
    store : IsStore s'
    task : Relies s' q
    others : (r : Phase) → Relies s r → Relies s' r
    balance : n' + holds p ≡ n + holds q

  module _ (e : Endian) where
    Move-Keeps :
        {s s' : Store d} {n n' : ℕ} {p q : Phase}
        → Move e s n p s' n' q
        → IsStore s
        → Relies s p
        → Keeps s n p s' n' q
    Move-Keeps {s} {n} (looked ts t ms e now) v r = record {
      store = v;
      task = current_length t s.segments now;
      others = λ p h. h;
      balance = omega arith;
    }
    Move-Keeps {s} {n} (outdated ts t ms e old) v r =
        let w = trunc_window ts s.window t r v.window_pos v.window_fits e in
        record { store = v; task = (omega arith, w.0); others = λ p h. h; balance = refl }
    Move-Keeps {s} {n} (filled t ms q none' e) v r =
        let same : (advanced d s t).segments ≡ q =
          ap (λ o. done_value o q) (sym (fill-advanced s t v r.0 r.1) ∙ e) in
        let long : 0 < length q = subst (λ q. 0 < length q) same (advanced-length s t v) in
        record {
          store = subst (λ q. IsStore (record s { segments = q })) same (advanced-IsStore d s t v);
          task = long;
          others = Relies-segments s q (λ h. long);
          balance = omega arith;
        }
    Move-Keeps {s} {n} (reread ms) v r = record {
      store = v;
      task = r;
      others = λ p h. h;
      balance = omega arith;
    }
    Move-Keeps {s} {n} (changed o os) v r =
        let f = λ (g : Segment d). Threads.step d g o in
        let long : 0 < length (at_back d f s.segments) =
          subst (λ n. 0 < n) (sym (length-at_back f s.segments)) r in
        record {
          store = at_back-IsStore f s v;
          task = long;
          others = Relies-segments s (at_back d f s.segments) (λ h. long);
          balance = omega arith;
        }
    Move-Keeps {s} {n} (released m e) v r = record {
      store = v;
      task = tt;
      others = λ p h. h;
      balance = omega arith;
    }
    Move-Keeps {s} {n} (opened k) v r = record {
      store = v;
      task = tt;
      others = λ p h. h;
      balance = omega arith;
    }
    Move-Keeps {s} {n} (viewed k) v r = record {
      store = v;
      task = tt;
      others = λ p h. h;
      balance = refl;
    }
    Move-Keeps {s} {n} (closed m e) v r = record {
      store = v;
      task = tt;
      others = λ p h. h;
      balance = omega arith;
    }

    -- A step of any task keeps the invariant.
    pub Step-IsSystem : {u v : System d} → Step e u v → IsSystem u → IsSystem v
    Step-IsSystem {u} {v} (moved before after p q was is m) h =
        let all : All (Relies u.store) (before ++ p ∷ after) =
          subst (All (Relies u.store)) was h.tasks in
        let k = Move-Keeps m h.store (All-at (Relies u.store) before after p all) in
        let n : u.readers ≡ holders before + (holds p + holders after) =
          h.readers ∙ ap holders was ∙ holders-append before (p ∷ after) in
        let n' : holders v.tasks ≡ holders before + (holds q + holders after) =
          ap holders is ∙ holders-append before (q ∷ after) in
        let b = k.balance in
        record {
          store = k.store;
          readers = omega arith;
          tasks =
              subst (All (Relies v.store)) (sym is)
                (All-change (Relies u.store) (Relies v.store) k.others before after p q k.task all);
        }

    -- The invariant holds in every state that the steps of the tasks reach, in whatever order they
    -- happen, from a state in which it holds.
    pub Reach-IsSystem : {u v : System d} → Reach e u v → IsSystem u → IsSystem v
    Reach-IsSystem here h = h
    Reach-IsSystem (next r s) h = Step-IsSystem s (Reach-IsSystem r h)
