-- ===== src/Common/Event.antt =====
-- The size of a message and the type of a socket, as the program reads them.
use ptraf.Shared.{ℕ, suc, ◌<◌, ◌≡◌, refl, ◌↔◌, ◌⊎◌, arith}
use ptraf.Shared.Int.{pos, negsuc, IsI32, i32_min_abs}
use ptraf.Shared.Results.{ok, err}
use ptraf.Common.Types.{SockMsgEvent, packet_size, SockType, from_u16, discriminant, unknown}

-- A message has a size exactly when its return code is not negative, and then that is its size.
pub packet_size-eq-ok_iff : (m : SockMsgEvent) (n : ℕ) → (packet_size m ≡ ok n) ↔ (m.ret ≡ pos n)
unfolding packet_size
packet_size-eq-ok_iff m n = ground arith

-- A negative return code -n that fits an `i32` is the error n; the least `i32` has no negation
-- and is kept.
packet_size_error :
    (m : SockMsgEvent) (n : ℕ)
    → m.ret ≡ negsuc n
    → IsI32 m.ret
    → ((suc n < i32_min_abs) × (packet_size m ≡ err (pos (suc n))))
      ⊎ ((suc n ≡ i32_min_abs) × (packet_size m ≡ err (negsuc n)))
unfolding packet_size
packet_size_error m n e h = ground arith

-- A socket type is read back from its number.
pub from_u16-discriminant : (t : SockType) → from_u16 (discriminant t) ≡ t
unfolding from_u16 discriminant
from_u16-discriminant unknown = refl
from_u16-discriminant _ = refl

-- A number that is read as another type than `unknown` is the number of that type.
discriminant-from_u16 : (n : ℕ) → (discriminant (from_u16 n) ≡ n) ⊎ (from_u16 n ≡ unknown)
unfolding from_u16 discriminant
discriminant-from_u16 n = ground arith
