-- ===== src/Timespec/Unitize.antt =====
-- What `unitize` of src/timespec.rs computes.
use water_rs.Prelude.{
  ℕ, zero, true, false, suc, ◌-◌, ◌/◌, ◌+◌, ◌*◌, ◌≤◌, ◌<◌, ◌^◌, ◌≡◌, refl, ap, arith, ◌⊎◌, inl, inr,
}
use native.Mathlib.Decide.{dec_lt}
use water_rs.Prelude.Int.{
  ℤ, pos, negsuc, pos_part, neg_part, ◌+ℤ◌, ◌-ℤ◌, +ℤ_parts, -ℤ_parts, ◌≤ℤ◌, ltb_ℤ,
}
use water_rs.Timespec.{Timespec, nsinsec, carry, borrow, borrow_last, unitize}
use water_rs.Timespec.Range.{wrap32_id, up, down, InRange, sec_add, sec_sub, nsec_sub, nsec_add}

carry_many :
    (s : ℤ) (n : ℕ)
    → InRange (record { sec = s; nsec = pos n })
    → let a : Timespec = record { sec = s; nsec = pos n } in
      nsinsec < n
      → carry a ≡ record { sec = s +ℤ pos (n / nsinsec); nsec = pos (n - n / nsinsec * nsinsec) }
unfolding carry
carry_many s n r h = rw (
  many,
  nsec_sub n (omega arith),
  sec_add s (n / nsinsec) (omega arith) (omega arith) (omega arith),
)
  where
    many : ltb_ℤ (pos nsinsec) (pos n) ≡ true
    many = ground arith

carry_few :
    (s n : ℤ) → let a : Timespec = record { sec = s; nsec = n } in n ≤ℤ pos nsinsec → carry a ≡ a
unfolding carry
carry_few s n h = rw few
  where
    few : ltb_ℤ (pos nsinsec) n ≡ false
    few = ground arith

borrow_pos : (s : ℤ) (n : ℕ) → let a : Timespec = record { sec = s; nsec = pos n } in borrow a ≡ a
unfolding borrow
borrow_pos s n = rw positive
  where
    positive : ltb_ℤ (pos n) (pos 0) ≡ false
    positive = ground arith

last_neg :
    (s : ℤ) (m : ℕ)
    → m < nsinsec
    → pos_part s ≤ 2 ^ 62
    → neg_part s ≤ 2 ^ 62 + 4
    → borrow_last (record { sec = s; nsec = negsuc m })
      ≡ record { sec = s -ℤ pos 1; nsec = pos (nsinsec - m - 1) }
unfolding borrow_last
last_neg s m h u d = rw (
  negative,
  sec_sub s 1 (omega arith) u d,
  more,
  wrap32_id (pos (nsinsec - m - 1)) (omega arith) (omega arith),
)
  where
    negative : ltb_ℤ (negsuc m) (pos 0) ≡ true
    negative = ground arith

    more : negsuc m +ℤ pos nsinsec ≡ pos (nsinsec - m - 1)
    more = unfold ◌+ℤ◌ in (ground arith)

last_zero :
    (s : ℤ) → borrow_last (record { sec = s; nsec = pos 0 }) ≡ record { sec = s; nsec = pos 0 }
unfolding borrow_last
last_zero s = refl

-- The same time, with nanoseconds that are not negative and below one second.
abbrev pub IsCarried : Timespec → Timespec → Type 0
IsCarried a b =
    (up b + down a ≡ up a + down b) × (neg_part b.nsec ≡ 0) × (pos_part b.nsec < nsinsec)

-ℤ_bounds :
    (s : ℤ) (q : ℕ)
    → (pos_part (s -ℤ pos q) ≤ pos_part s) × (neg_part (s -ℤ pos q) ≤ neg_part s + q)
unfolding ◌-ℤ◌
-ℤ_bounds (pos s) q = ground arith
-ℤ_bounds (negsuc s) q = ground arith

borrow_rest :
    (s : ℤ) (n rem : ℕ)
    → pos_part s < 2 ^ 62
    → neg_part s < 2 ^ 62
    → suc n ≤ 2 ^ 31
    → rem ≡ suc n - suc n / nsinsec * nsinsec
    → IsCarried
        (record { sec = s; nsec = negsuc n })
        (borrow_last (record { sec = s -ℤ pos (suc n / nsinsec); nsec = pos 0 -ℤ pos rem }))
borrow_rest s n zero u d h e =
    rw (none_left, last_zero (s -ℤ pos (suc n / nsinsec)))
      (omega (arith, -ℤ_parts s (pos (suc n / nsinsec))))
  where
    none_left : pos 0 -ℤ pos 0 ≡ pos 0
    none_left = unfold ◌-ℤ◌ in refl
borrow_rest s n (suc m) u d h e =
    rw
      (
        some_left,
        last_neg (s -ℤ pos (suc n / nsinsec)) m (omega arith)
            (omega (arith, (-ℤ_bounds s (suc n / nsinsec)).0))
            (omega (arith, (-ℤ_bounds s (suc n / nsinsec)).1)),
      )
      (omega
        (arith, -ℤ_parts s (pos (suc n / nsinsec)), -ℤ_parts (s -ℤ pos (suc n / nsinsec)) (pos 1)))
  where
    some_left : pos 0 -ℤ pos (suc m) ≡ negsuc m
    some_left = unfold ◌-ℤ◌ in (ground arith)

borrow_neg :
    (s : ℤ) (n : ℕ)
    → let a : Timespec = record { sec = s; nsec = negsuc n } in InRange a → IsCarried a (borrow a)
unfolding borrow
borrow_neg s n r =
    rw
      (
        negative,
        nsec_add n (omega arith),
        sec_sub s (suc n / nsinsec) (omega arith) (omega arith) (omega arith),
      )
      (borrow_rest s n _ (omega arith) (omega arith) (omega arith) refl)
  where
    negative : ltb_ℤ (negsuc n) (pos 0) ≡ true
    negative = ground arith

-- The nanoseconds that `unitize` leaves: below one second, except for one case.
abbrev pub IsUnit : ℤ → ℤ → Type 0
IsUnit n m = (neg_part m ≡ 0) × ((pos_part m < nsinsec) ⊎ ((n ≡ pos nsinsec) × (m ≡ pos nsinsec)))

at_most :
    (n : ℕ)
    → Dec (n < nsinsec)
    → ¬ (nsinsec < n)
    → (n < nsinsec) ⊎ ((pos n ≡ pos nsinsec) × (pos n ≡ pos nsinsec))
at_most n (yes h) k = inl h
at_most n (no h) k = let e : n ≡ nsinsec = omega arith in inr (ap pos e, ap pos e)

unitize_at :
    (s n : ℤ)
    → let a : Timespec = record { sec = s; nsec = n } in
      let b = unitize a in InRange a → (up b + down a ≡ up a + down b) × IsUnit n b.nsec
unfolding unitize
unitize_at s (negsuc n) r =
    rw (carry_few s (negsuc n) (omega arith))
      (let (same, low, less) = borrow_neg s n r in (same, (low, inl less)))
unitize_at s (pos n) r = elim (dec_lt nsinsec n) [
  | yes h ↦
      rw (carry_many s n r h, borrow_pos (s +ℤ pos (n / nsinsec)) (n - n / nsinsec * nsinsec))
        (omega (arith, +ℤ_parts s (pos (n / nsinsec))), (refl, inl (omega arith)))
  | no h ↦
      rw (carry_few s (pos n) (omega arith), borrow_pos s n)
        (refl, (refl, at_most n (dec_lt n nsinsec) h))
]

-- For seconds below 2 ^ 62 and any `i32` of nanoseconds, `unitize` keeps the time and leaves
-- nanoseconds from 0 up to below one second, except that exactly one second of nanoseconds stays.
pub unitize_lem :
    (a : Timespec)
    → InRange a
    → (up (unitize a) + down a ≡ up a + down (unitize a)) × IsUnit a.nsec (unitize a).nsec
unitize_lem a r = unitize_at a.sec a.nsec r
