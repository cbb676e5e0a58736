-- ===== src/Events.antt =====
-- ptraf/src/probe.rs, `EventIter`: the iterator over the events that a read has put into the
-- buffers. A buffer is the event that it holds.
pub mod Order
pub mod Reading
pub mod Delivery
pub mod Examples
use ptraf.Shared.{ℕ, ◌+◌, ◌-◌, Option, none, some, List, length, leb, if◌then◌else◌, get_elem?}
use ptraf.Common.Types.{SockMsgEvent}

pub record EventIter : Type 0 where
  pub buf : List SockMsgEvent
  pub cur : ℕ

unfoldable pub new : List SockMsgEvent → EventIter
new buf = record { cur = 0; buf = buf }

-- `none` beside an iterator that has not ended would be an index out of range.
unfoldable pub next : EventIter → EventIter × Option SockMsgEvent
next self =
    if leb (length self.buf) self.cur
    then (self, none)
    else (record self { cur = self.cur + 1 }, get_elem? self.buf self.cur)

unfoldable pub size_hint : EventIter → ℕ × Option ℕ
size_hint self =
    if leb (length self.buf) self.cur
    then (0, some 0)
    else (length self.buf - self.cur, some (length self.buf - self.cur))
