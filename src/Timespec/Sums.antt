-- ===== src/Timespec/Sums.antt =====
-- What `add` and `sub` of src/timespec.rs compute.
use water_rs.Prelude.{◌+◌, ◌*◌, ◌≤◌, ◌<◌, ◌^◌, ◌≡◌, ap, arith, inl, inr}
use water_rs.Prelude.Int.{ℤ, pos_part, neg_part, ◌+ℤ◌, ◌-ℤ◌, +ℤ_parts, -ℤ_parts}
use water_rs.Timespec.{Timespec, wrap32, wrap64, nsinsec, unitize, add, sub}
use water_rs.Timespec.Range.{wrap64_id, wrap32_id, up, down, InRange}
use water_rs.Timespec.Unitize.{IsCarried, IsUnit, unitize_lem}

-- A time as the clock gives it.
pub record IsNormal (a : Timespec) : Type 0 where
  pub sec_up : pos_part a.sec < 2 ^ 61
  pub sec_down : neg_part a.sec < 2 ^ 61
  pub nsec_low : neg_part a.nsec ≡ 0
  pub nsec_up : pos_part a.nsec < nsinsec

-ℤ_limits :
    (a b : ℤ)
    → (pos_part (a -ℤ b) ≤ pos_part a + neg_part b) × (neg_part (a -ℤ b) ≤ neg_part a + pos_part b)
unfolding ◌-ℤ◌
-ℤ_limits a b = ground arith

+ℤ_limits :
    (a b : ℤ)
    → (pos_part (a +ℤ b) ≤ pos_part a + pos_part b) × (neg_part (a +ℤ b) ≤ neg_part a + neg_part b)
unfolding ◌+ℤ◌
+ℤ_limits a b = ground arith

IsUnit-lt :
    (n m : ℤ) → IsUnit n m → pos_part n < nsinsec → (neg_part m ≡ 0) × (pos_part m < nsinsec)
IsUnit-lt n m (low, inl h) k = (low, h)
IsUnit-lt n m (low, inr (e, f)) k = absurd (omega (arith, ap pos_part e))

module _ (a b : Timespec) (p : IsNormal a) (q : IsNormal b) where
  nsec_diff : wrap32 (a.nsec -ℤ b.nsec) ≡ a.nsec -ℤ b.nsec
  nsec_diff =
      let (u, d) = -ℤ_limits a.nsec b.nsec in
      wrap32_id (a.nsec -ℤ b.nsec) (omega (arith, p.nsec_up, q.nsec_low, u))
        (omega (arith, p.nsec_low, q.nsec_up, d))

  sec_diff : wrap64 (a.sec -ℤ b.sec) ≡ a.sec -ℤ b.sec
  sec_diff =
      let (u, d) = -ℤ_limits a.sec b.sec in
      wrap64_id (a.sec -ℤ b.sec) (omega (arith, p.sec_up, q.sec_down, u))
        (omega (arith, p.sec_down, q.sec_up, d))

  sec_sum : wrap64 (a.sec +ℤ b.sec) ≡ a.sec +ℤ b.sec
  sec_sum =
      let (u, d) = +ℤ_limits a.sec b.sec in
      wrap64_id (a.sec +ℤ b.sec) (omega (arith, p.sec_up, q.sec_up, u))
        (omega (arith, p.sec_down, q.sec_down, d))

  InRange-diff :
      (s : ℤ)
      → pos_part s < 2 ^ 62
      → neg_part s < 2 ^ 62
      → InRange (record { sec = s; nsec = a.nsec -ℤ b.nsec })
  InRange-diff s u d =
      let (x, y) = -ℤ_limits a.nsec b.nsec in
      record {
        sec_up = u;
        sec_down = d;
        nsec_up = omega (arith, p.nsec_up, q.nsec_low, x);
        nsec_down = omega (arith, p.nsec_low, q.nsec_up, y);
      }

  unitize_diff :
      (s : ℤ)
      → pos_part s < 2 ^ 62
      → neg_part s < 2 ^ 62
      → IsCarried
          (record { sec = s; nsec = a.nsec -ℤ b.nsec })
          (unitize (record { sec = s; nsec = a.nsec -ℤ b.nsec }))
  unitize_diff s u d =
      let (same, unit) =
        unitize_lem (record { sec = s; nsec = a.nsec -ℤ b.nsec }) (InRange-diff s u d) in
      let (low, less) =
        IsUnit-lt _ _ unit (omega (arith, p.nsec_up, q.nsec_low, (-ℤ_limits a.nsec b.nsec).0)) in
      (same, low, less)

  -- `sub` of two clock times, with seconds below 2 ^ 61 and nanoseconds from 0 up to below one
  -- second, is their difference, with nanoseconds in that range again.
  pub sub_lem :
      (up (sub a b) + up b + down a ≡ down (sub a b) + down b + up a)
      × (neg_part (sub a b).nsec ≡ 0)
      × (pos_part (sub a b).nsec < nsinsec)
  unfolding sub
  sub_lem =
      let (u, d) = -ℤ_limits a.sec b.sec in
      let (same, low, less) =
        unitize_diff (a.sec -ℤ b.sec) (omega (arith, p.sec_up, q.sec_down, u))
          (omega (arith, p.sec_down, q.sec_up, d)) in
      rw (sec_diff, nsec_diff)
        (omega (arith, same, -ℤ_parts a.sec b.sec, -ℤ_parts a.nsec b.nsec), low, less)

  -- `add` of two clock times, with seconds below 2 ^ 61 and nanoseconds from 0 up to below one
  -- second, falls short of their sum by twice the nanoseconds of the second one, which it
  -- subtracts.
  pub add_short :
      up (add a b) + down a + down b + 2 * pos_part b.nsec ≡ down (add a b) + up a + up b
  unfolding add
  add_short =
      let (u, d) = +ℤ_limits a.sec b.sec in
      let (same, low, less) =
        unitize_diff (a.sec +ℤ b.sec) (omega (arith, p.sec_up, q.sec_up, u))
          (omega (arith, p.sec_down, q.sec_down, d)) in
      rw (sec_sum, nsec_diff)
        (omega (arith, same, +ℤ_parts a.sec b.sec, -ℤ_parts a.nsec b.nsec, q.nsec_low))
