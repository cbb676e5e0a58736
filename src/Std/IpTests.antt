-- ===== src/Std/IpTests.antt =====
-- Addresses in the forms that the tests of ptraf-filter/src/frontend.rs and the documentation of
-- the standard library use.
use ptraf.Shared.{◌≡◌, refl, some, none}
use ptraf.Shared.Texts.{codes}
use ptraf.Std.Ip.{v4, v6}
use ptraf.Std.IpParse.{parse_ip}

dotted : parse_ip (codes "10.0.254.0") ≡ some (v4 0x0a00fe00)
unfolding parse_ip
dotted = refl

leading_zero : parse_ip (codes "10.0.254.01") ≡ none
unfolding parse_ip
leading_zero = refl

full :
    parse_ip (codes "1050:0:0:0:5:600:300c:326b")
    ≡ some (v6 0x1050_0000_0000_0000_0005_0600_300c_326b)
unfolding parse_ip
full = refl

compressed : parse_ip (codes "::1") ≡ some (v6 1)
unfolding parse_ip
compressed = refl

compressed_head : parse_ip (codes "fe80::") ≡ some (v6 0xfe80_0000_0000_0000_0000_0000_0000_0000)
unfolding parse_ip
compressed_head = refl

mapped : parse_ip (codes "::ffff:1.2.3.4") ≡ some (v6 0xffff_0102_0304)
unfolding parse_ip
mapped = refl
