-- ===== src/Common/Examples.antt =====
-- The theorems on addresses, on concrete ones.
use ptraf.Shared.{◌≡◌, arith}
use ptraf.Std.Bytes.{little, big}
use ptraf.Std.Ip
use ptraf.Common.Types.{Words, ip_v4, ip_v6, from_octets, from_be_words, segments, std_ip}
use ptraf.Std.Bytes.{from_be32}
use ptraf.Common.Address.{std_ip-network_order, std_ip-from_octets, octets, IsWords}

std_ip-from_octets_example :
    (std_ip big (from_octets 10 0 0 1) ≡ Ip.v4 (octets 10 0 0 1))
    × (std_ip little (from_octets 10 0 0 1) ≡ Ip.v4 (octets 1 0 0 10))
std_ip-from_octets_example =
    std_ip-from_octets 10 0 0 1 (omega arith) (omega arith) (omega arith) (omega arith)

abbrev words : Words
words = record { w0 = 8193; w1 = 3512; w2 = 0; w3 = 0; w4 = 0; w5 = 0; w6 = 0; w7 = 1 }

words-IsWords : IsWords words
words-IsWords = record {
  b0 = omega arith;
  b1 = omega arith;
  b2 = omega arith;
  b3 = omega arith;
  b4 = omega arith;
  b5 = omega arith;
  b6 = omega arith;
  b7 = omega arith;
}

std_ip-network_order_example :
    (std_ip little (ip_v4 (from_be32 little 2130706433)) ≡ Ip.v4 2130706433)
    × (std_ip little (ip_v6 (from_be_words little words)) ≡ Ip.v6 (segments words))
std_ip-network_order_example =
    std_ip-network_order little 2130706433 words (omega arith) words-IsWords
