-- ===== src/Clock/Examples.antt =====
-- The test of ptraf/src/clock.rs: 3010 s, truncated to 1000 s.
use ptraf.Shared.{◌≡◌, refl, some}
use ptraf.Clock.{trunc}

timestamp_trunc : trunc 3010000000000 1000000000000 ≡ some 3000000000000
unfolding trunc
timestamp_trunc = refl
