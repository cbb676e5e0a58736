-- ===== src/Std/Bytes.antt =====
-- The byte order of the host, and `u16::from_be` and `u32::from_be` of Rust's core library.
use ptraf.Shared.{ℕ, ◌+◌, ◌*◌, ◌/◌, ◌%◌, ◌<◌, ◌≡◌, refl, arith}

pub data Endian : Type 0 where
  little big : Endian

-- `swap_bytes` of a `u16` and of a `u32`.
unfoldable pub swap16 : ℕ → ℕ
swap16 x = x % 256 * 256 + x / 256 % 256

unfoldable pub swap32 : ℕ → ℕ
swap32 x = x % 256 * 16777216 + x / 256 % 256 * 65536 + x / 65536 % 256 * 256 + x / 16777216 % 256

-- `from_be` and `to_be` are one function.
unfoldable pub from_be16 : Endian → ℕ → ℕ
unfolding swap16
from_be16 little x = swap16 x
from_be16 big x = x

unfoldable pub from_be32 : Endian → ℕ → ℕ
unfolding swap32
from_be32 little x = swap32 x
from_be32 big x = x

pub from_be16-from_be16 : (e : Endian) (x : ℕ) → x < 65536 → from_be16 e (from_be16 e x) ≡ x
unfolding from_be16
from_be16-from_be16 little x h = omega arith
from_be16-from_be16 big x h = refl

pub from_be32-from_be32 : (e : Endian) (x : ℕ) → x < 4294967296 → from_be32 e (from_be32 e x) ≡ x
unfolding from_be32
from_be32-from_be32 little x h = omega arith
from_be32-from_be32 big x h = refl

pub from_be16_bound : (e : Endian) (x : ℕ) → x < 65536 → from_be16 e x < 65536
unfolding from_be16
from_be16_bound little x h = omega arith
from_be16_bound big x h = h

pub from_be32_bound : (e : Endian) (x : ℕ) → x < 4294967296 → from_be32 e x < 4294967296
unfolding from_be32
from_be32_bound little x h = omega arith
from_be32_bound big x h = h
