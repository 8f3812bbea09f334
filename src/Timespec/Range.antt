-- ===== src/Timespec/Range.antt =====
-- Times in nanoseconds (src/timespec.rs), and the range in which the fields do not wrap.
use water_rs.Prelude.{ℕ, suc, ◌-◌, ◌/◌, ◌+◌, ◌*◌, ◌≤◌, ◌<◌, ◌^◌, ◌≡◌, arith}
use water_rs.Prelude.Int.{ℤ, pos, negsuc, pos_part, neg_part, ◌+ℤ◌, ◌-ℤ◌}
use water_rs.Timespec.{Timespec, wrap32, wrap64, nsinsec}

pub wrap64_id : (a : ℤ) → pos_part a < 2 ^ 63 → neg_part a ≤ 2 ^ 63 → wrap64 a ≡ a
unfolding wrap64
wrap64_id (pos n) h k = ground arith
wrap64_id (negsuc n) h k = ground arith

pub wrap32_id : (a : ℤ) → pos_part a < 2 ^ 31 → neg_part a ≤ 2 ^ 31 → wrap32 a ≡ a
unfolding wrap32
wrap32_id (pos n) h k = ground arith
wrap32_id (negsuc n) h k = ground arith

-- The time in nanoseconds is `up - down`.
abbrev pub up : Timespec → ℕ
up a = pos_part a.sec * nsinsec + pos_part a.nsec

abbrev pub down : Timespec → ℕ
down a = neg_part a.sec * nsinsec + neg_part a.nsec

-- Seconds that leave room for the carries, and an `i32` of nanoseconds.
pub record InRange (a : Timespec) : Type 0 where
  pub sec_up : pos_part a.sec < 2 ^ 62
  pub sec_down : neg_part a.sec < 2 ^ 62
  pub nsec_up : pos_part a.nsec < 2 ^ 31
  pub nsec_down : neg_part a.nsec ≤ 2 ^ 31

pub sec_add :
    (s : ℤ) (q : ℕ)
    → q < 4
    → pos_part s ≤ 2 ^ 62
    → neg_part s ≤ 2 ^ 62
    → wrap64 (s +ℤ pos q) ≡ s +ℤ pos q
unfolding ◌+ℤ◌
sec_add (pos s) q h u d = wrap64_id _ (ground arith) (ground arith)
sec_add (negsuc s) q h u d = wrap64_id _ (ground arith) (ground arith)

pub sec_sub :
    (s : ℤ) (q : ℕ)
    → q < 4
    → pos_part s ≤ 2 ^ 62
    → neg_part s ≤ 2 ^ 62 + 4
    → wrap64 (s -ℤ pos q) ≡ s -ℤ pos q
unfolding ◌-ℤ◌
sec_sub (pos s) q h u d = wrap64_id _ (ground arith) (ground arith)
sec_sub (negsuc s) q h u d = wrap64_id _ (ground arith) (ground arith)

pub nsec_sub :
    (n : ℕ)
    → n < 2 ^ 31
    → wrap32 (pos n -ℤ wrap32 (pos (n / nsinsec * nsinsec))) ≡ pos (n - n / nsinsec * nsinsec)
nsec_sub n h =
    rw (wrap32_id (pos (n / nsinsec * nsinsec)) (omega arith) (omega arith), less)
      (wrap32_id _ (omega arith) (omega arith))
  where
    less : pos n -ℤ pos (n / nsinsec * nsinsec) ≡ pos (n - n / nsinsec * nsinsec)
    less = unfold ◌-ℤ◌ in (ground arith)

pub nsec_add :
    (n : ℕ)
    → suc n ≤ 2 ^ 31
    → wrap32 (negsuc n +ℤ wrap32 (pos (suc n / nsinsec * nsinsec)))
      ≡ pos 0 -ℤ pos (suc n - suc n / nsinsec * nsinsec)
nsec_add n h =
    rw (wrap32_id (pos (suc n / nsinsec * nsinsec)) (omega arith) (omega arith), more)
      (wrap32_id _ (unfold ◌-ℤ◌ in (ground arith)) (unfold ◌-ℤ◌ in (ground arith)))
  where
    more :
        negsuc n +ℤ pos (suc n / nsinsec * nsinsec)
        ≡ pos 0 -ℤ pos (suc n - suc n / nsinsec * nsinsec)
    more = unfold ◌-ℤ◌ ◌+ℤ◌ in (ground arith)
