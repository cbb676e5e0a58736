-- ===== src/Events/Order.antt =====
-- ptraf/src/probe.rs: the events that `EventIter` yields, and their order.
use ptraf.Shared.{
  ℕ, zero, suc, ◌+◌, ◌-◌, ◌≤◌, ◌≡◌, refl, sym, ap, ◌∙◌, true, false, Option, none, some, List, [],
  ◌∷◌, ◌++◌, length, leb, if◌then◌else◌, get_elem?, length-append, append_assoc, arith,
}
use ptraf.Common.Types.{SockMsgEvent}
use ptraf.Events.{EventIter, new, next, size_hint}

-- What at most so many calls of `next` yield.
unfoldable pub drained : ℕ → EventIter → List SockMsgEvent
unfolding next
drained zero it = []
drained (suc n) it = yielded (next it) (drained n (next it).0)
  where
    yielded : EventIter × Option SockMsgEvent → List SockMsgEvent → List SockMsgEvent
    yielded (rest, none) more = []
    yielded (rest, some m) more = m ∷ more

abbrev exactly : ℕ → ℕ × Option ℕ
exactly n = (n, some n)

-- The iterator that has yielded a part of its events.
abbrev after : List SockMsgEvent → List SockMsgEvent → EventIter
after pre rest = record { buf = pre ++ rest; cur = length pre }

get_elem?-append :
    (pre : List SockMsgEvent) (m : SockMsgEvent) (rest : List SockMsgEvent)
    → get_elem? (pre ++ m ∷ rest) (length pre) ≡ some m
get_elem?-append [] m rest = refl
get_elem?-append (x ∷ pre) m rest = get_elem?-append pre m rest

next-nil : (pre : List SockMsgEvent) → next (after pre []) ≡ (after pre [], none)
unfolding next
next-nil pre =
    ap
      (λ b.
        if b
        then (after pre [], none)
        else (record (after pre []) { cur = length pre + 1 }, get_elem? (pre ++ []) (length pre)))
      (ended (length-append pre []))
  where
    ended : {n : ℕ} → n ≡ length pre + 0 → leb n (length pre) ≡ true
    ended h = ground arith

next-cons :
    (pre : List SockMsgEvent) (m : SockMsgEvent) (rest : List SockMsgEvent)
    → next (after pre (m ∷ rest)) ≡ (record { buf = pre ++ m ∷ rest; cur = length pre + 1 }, some m)
unfolding next
next-cons pre m rest = rw (going (length-append pre (m ∷ rest)), get_elem?-append pre m rest) refl
  where
    going : {n : ℕ} → n ≡ length pre + suc (length rest) → leb n (length pre) ≡ false
    going h = ground arith

move :
    (pre : List SockMsgEvent) (m : SockMsgEvent) (rest : List SockMsgEvent)
    → after (pre ++ m ∷ []) rest ≡ record { buf = pre ++ m ∷ rest; cur = length pre + 1 }
move pre m rest = rw (length-append pre (m ∷ []), append_assoc pre (m ∷ []) rest) refl

drained-after :
    (pre rest : List SockMsgEvent) (n : ℕ) → length rest ≤ n → drained n (after pre rest) ≡ rest
unfolding drained
drained-after pre [] zero h = refl
drained-after pre [] (suc n) h = rw (next-nil pre) refl
drained-after pre (m ∷ rest) zero h = absurd (omega arith)
drained-after pre (m ∷ rest) (suc n) h = rw (next-cons pre m rest) (
    ap (λ it. m ∷ drained n it) (sym (move pre m rest))
    ∙ ap (λ xs. m ∷ xs) (drained-after (pre ++ m ∷ []) rest n (omega arith)))

size_hint-after :
    (pre rest : List SockMsgEvent) → size_hint (after pre rest) ≡ exactly (length rest)
unfolding size_hint
size_hint-after pre rest = sized (length-append pre rest)
  where
    sized :
        {n : ℕ}
        → n ≡ length pre + length rest
        → (if leb n (length pre) then exactly 0 else exactly (n - length pre))
          ≡ exactly (length rest)
    sized h = ground arith

-- From any position on, an iterator yields the events that are left, each once and in order,
-- then ends, if `next` is called at least so many times, and its size hint is their number; a
-- new iterator has all of its events left.
pub drained_lem :
    (pre rest : List SockMsgEvent) (n : ℕ)
    → length rest ≤ n
    → (let it : EventIter = record { buf = pre ++ rest; cur = length pre } in
        (drained n it ≡ rest)
        × (size_hint it ≡ (length rest, some (length rest)))
        × (drained (length pre + length rest) (new (pre ++ rest)) ≡ pre ++ rest))
unfolding new
drained_lem pre rest n h = (
  drained-after pre rest n h,
  size_hint-after pre rest,
  drained-after [] (pre ++ rest) _ (at_most (length-append pre rest)),
)
  where
    at_most : {m : ℕ} → m ≡ length pre + length rest → m ≤ length pre + length rest
    at_most e = omega arith
