-- ===== src/Start/Examples.antt =====
-- The options of the program, by default: 120 segments of 250 ms.
use ptraf.Shared.{◌≡◌, refl}
use ptraf.Start.{default_args, segment_interval, segment_count}

default_interval : segment_interval default_args ≡ 250000000
unfolding segment_interval default_args
default_interval = refl

default_count : segment_count default_args ≡ 120
unfolding segment_count default_args
default_count = refl
