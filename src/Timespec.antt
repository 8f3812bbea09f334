-- ===== src/Timespec.antt =====
-- src/timespec.rs: sums and differences of times. `sec` is an `i64` and `nsec` an `i32`; they wrap.
pub mod Range
pub mod Unitize
pub mod Sums
mod Tests
use water_rs.Prelude.{ℕ, ◌+◌, ◌-◌, ◌*◌, ◌/◌, ◌%◌, ◌^◌, ltb, if◌then◌else◌}
use water_rs.Prelude.Int.{ℤ, pos, negsuc, pos_part, neg_part, ◌+ℤ◌, ◌-ℤ◌, ltb_ℤ}

pub record Timespec : Type 0 where
  pub sec : ℤ
  pub nsec : ℤ

-- The number that the low bits of `a` stand for; there are `2 * half` patterns.
wrap : ℕ → ℤ → ℤ
wrap half a =
    let bits = (pos_part a + (2 * half - neg_part a % (2 * half))) % (2 * half) in
    if ltb bits half then pos bits else negsuc (2 * half - bits - 1)

pub wrap32 : ℤ → ℤ
unfolding wrap
wrap32 = wrap (2 ^ 31)

pub wrap64 : ℤ → ℤ
unfolding wrap
wrap64 = wrap (2 ^ 63)

abbrev pub nsinsec : ℕ
nsinsec = 1_000_000_000

-- The first part of `unitize`: whole seconds out of many nanoseconds.
pub carry : Timespec → Timespec
carry a =
    if ltb_ℤ (pos nsinsec) a.nsec
    then (let sectoadd = pos_part a.nsec / nsinsec in
        record {
          sec = wrap64 (a.sec +ℤ pos sectoadd);
          nsec = wrap32 (a.nsec -ℤ wrap32 (pos (sectoadd * nsinsec)));
        })
    else a

-- The end of `unitize`: one second more, if the nanoseconds are still negative.
pub borrow_last : Timespec → Timespec
borrow_last a =
    if ltb_ℤ a.nsec (pos 0)
    then record { sec = wrap64 (a.sec -ℤ pos 1); nsec = wrap32 (a.nsec +ℤ pos nsinsec) }
    else a

-- The second part of `unitize`. `nsec / -nsinsec` is not negative where `nsec` is: division cuts off
-- towards zero.
pub borrow : Timespec → Timespec
unfolding borrow_last
borrow a =
    let sectotake = neg_part a.nsec / nsinsec in
    let taken : Timespec = record {
      sec = wrap64 (a.sec -ℤ pos sectotake);
      nsec = wrap32 (a.nsec +ℤ wrap32 (pos (sectotake * nsinsec)));
    } in
    if ltb_ℤ a.nsec (pos 0) then borrow_last taken else a

pub unitize : Timespec → Timespec
unitize a = borrow (carry a)

pub add : Timespec → Timespec → Timespec
add a b = unitize (record { sec = wrap64 (a.sec +ℤ b.sec); nsec = wrap32 (a.nsec -ℤ b.nsec) })

pub sub : Timespec → Timespec → Timespec
sub a b = unitize (record { sec = wrap64 (a.sec -ℤ b.sec); nsec = wrap32 (a.nsec -ℤ b.nsec) })
