-- ===== src/Common/Address.antt =====
-- What the user side reads of an address and of a port that the kernel side wrote.
use ptraf.Shared.{ℕ, ◌+◌, ◌*◌, ◌/◌, ◌%◌, ◌<◌, ◌≡◌, ap, ◌∙◌, arith}
use ptraf.Std.Bytes.{
  Endian, little, big, from_be32, swap32, from_be32-from_be32, from_be16-from_be16, from_be32_bound,
}
use ptraf.Std.Ip
use ptraf.Common.Types.{ip_v4, ip_v6, from_octets, from_be_words, segments, std_ip, Words}

join-split : (a : ℕ) → a < 4294967296 → a / 65536 % 65536 * 65536 + a % 65536 ≡ a
join-split a h = omega arith

-- An IPv4 address that the kernel keeps in network byte order is read back as it was, on a host of
-- either byte order.
pub std_ip-ip_v4 :
    (e : Endian) (a : ℕ) → a < 4294967296 → std_ip e (ip_v4 (from_be32 e a)) ≡ Ip.v4 a
unfolding std_ip ip_v4
std_ip-ip_v4 e a h = ap Ip.v4 (
    ap (from_be32 e) (join-split (from_be32 e a) (from_be32_bound e a h))
    ∙ from_be32-from_be32 e a h)

abbrev pub octets : ℕ → ℕ → ℕ → ℕ → ℕ
octets a b c d = a * 16777216 + b * 65536 + c * 256 + d

-- Four octets in the order of an address are read back as that address on a big-endian host, and
-- in the opposite order on a little-endian one.
pub std_ip-from_octets :
    (a b c d : ℕ)
    → a < 256
    → b < 256
    → c < 256
    → d < 256
    → (std_ip big (from_octets a b c d) ≡ Ip.v4 (octets a b c d))
      × (std_ip little (from_octets a b c d) ≡ Ip.v4 (octets d c b a))
unfolding std_ip from_octets swap32
std_ip-from_octets a b c d ha hb hc hd = (ap Ip.v4 (omega arith), ap Ip.v4 (omega arith))

-- The eight words of an address, each below 2^16.
pub record IsWords (w : Words) : Type 0 where
  pub b0 : w.w0 < 65536
  pub b1 : w.w1 < 65536
  pub b2 : w.w2 < 65536
  pub b3 : w.w3 < 65536
  pub b4 : w.w4 < 65536
  pub b5 : w.w5 < 65536
  pub b6 : w.w6 < 65536
  pub b7 : w.w7 < 65536

from_be_words-from_be_words :
    (e : Endian) (w : Words) → IsWords w → from_be_words e (from_be_words e w) ≡ w
unfolding from_be_words
from_be_words-from_be_words e w h = λ i. record {
  w0 = from_be16-from_be16 e w.w0 h.b0 i;
  w1 = from_be16-from_be16 e w.w1 h.b1 i;
  w2 = from_be16-from_be16 e w.w2 h.b2 i;
  w3 = from_be16-from_be16 e w.w3 h.b3 i;
  w4 = from_be16-from_be16 e w.w4 h.b4 i;
  w5 = from_be16-from_be16 e w.w5 h.b5 i;
  w6 = from_be16-from_be16 e w.w6 h.b6 i;
  w7 = from_be16-from_be16 e w.w7 h.b7 i;
}

-- An IPv6 address whose eight words the kernel keeps in network byte order is read back as the
-- address of those words, on a host of either byte order.
pub std_ip-ip_v6 :
    (e : Endian) (w : Words) → IsWords w → std_ip e (ip_v6 (from_be_words e w)) ≡ Ip.v6 (segments w)
unfolding std_ip ip_v6
std_ip-ip_v6 e w h = ap (λ u. Ip.v6 (segments u)) (from_be_words-from_be_words e w h)

-- An address that the kernel keeps in network byte order, an IPv4 address below 2^32 or the eight
-- words of an IPv6 address, is read back as it was, on a host of either byte order.
pub std_ip-network_order :
    (e : Endian) (a : ℕ) (w : Words)
    → a < 4294967296
    → IsWords w
    → (std_ip e (ip_v4 (from_be32 e a)) ≡ Ip.v4 a)
      × (std_ip e (ip_v6 (from_be_words e w)) ≡ Ip.v6 (segments w))
std_ip-network_order e a w h k = (std_ip-ip_v4 e a h, std_ip-ip_v6 e w k)
