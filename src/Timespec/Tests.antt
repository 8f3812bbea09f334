-- ===== src/Timespec/Tests.antt =====
-- Runs of the theorems on src/timespec.rs.
use water_rs.Prelude.{◌+◌, ◌*◌, ◌<◌, ◌≡◌, refl, arith}
use water_rs.Prelude.Int.{pos, negsuc, pos_part, neg_part}
use water_rs.Timespec.{Timespec, nsinsec, unitize, add, sub}
use water_rs.Timespec.Range.{up, down, InRange}
use water_rs.Timespec.Unitize.{IsUnit, unitize_lem}
use water_rs.Timespec.Sums.{IsNormal, sub_lem, add_short}

-- Two seconds, less one second and a half of nanoseconds.
abbrev late : Timespec
late = record { sec = pos 2; nsec = negsuc 1_499_999_999 }

late-InRange : InRange late
late-InRange = record {
  sec_up = omega arith;
  sec_down = omega arith;
  nsec_up = omega arith;
  nsec_down = omega arith;
}

unitize_lem_example :
    (up (unitize late) + down late ≡ up late + down (unitize late))
    × IsUnit (negsuc 1_499_999_999) (unitize late).nsec
unitize_lem_example = unitize_lem late late-InRange

abbrev noon : Timespec
noon = record { sec = pos 43_200; nsec = pos 200_000_000 }

abbrev start : Timespec
start = record { sec = pos 43_100; nsec = pos 900_000_000 }

noon-IsNormal : IsNormal noon
noon-IsNormal = record {
  sec_up = omega arith;
  sec_down = omega arith;
  nsec_low = refl;
  nsec_up = omega arith;
}

start-IsNormal : IsNormal start
start-IsNormal = record {
  sec_up = omega arith;
  sec_down = omega arith;
  nsec_low = refl;
  nsec_up = omega arith;
}

sub_lem_example :
    (up (sub noon start) + up start + down noon ≡ down (sub noon start) + down start + up noon)
    × (neg_part (sub noon start).nsec ≡ 0)
    × (pos_part (sub noon start).nsec < nsinsec)
sub_lem_example = sub_lem noon start noon-IsNormal start-IsNormal

add_short_example :
    up (add noon start) + down noon + down start + 2 * 900_000_000
    ≡ down (add noon start) + up noon + up start
add_short_example = add_short noon start noon-IsNormal start-IsNormal
