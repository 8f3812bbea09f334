-- ===== src/RawMessage/Fill.antt =====
-- A fresh buffer that is filled from a slice (src/rawmessage.rs), as the receiver of a bridge does it.
use water_rs.Prelude.{
  ℕ, ◌+◌, ◌%◌, ◌<◌, ◌≡◌, List, arith, ltb, ◌==◌, length, length-take, Bool-cases, inl, inr, ◌≤◌,
  done, false,
}
use water_rs.RawMessage.Memory.{allocate, length-allocate, splice-whole}
use water_rs.RawMessage.{usize_mod, Internal, IsValid, new, write_from_slice, as_slice}
use water_rs.RawMessage.Access.{write_loop-splice}

pub write_from_slice-new :
    (mem : ℕ → ℕ) (f : List ℕ)
    → 0 < length f
    → length f < usize_mod
    → write_from_slice (new mem (length f)) 0 f
      ≡ done (record { len = length f; cap = length f; buf = f })
unfolding new write_from_slice
write_from_slice-new mem f some_byte small =
    let nonzero : (length f == 0) ≡ false = ground arith in
    let fits : ltb (length f) ((0 + length f) % usize_mod) ≡ false = ground arith in
    let same : ltb (length f) (0 + length f) ≡ false = ground arith in
    rw (
      nonzero,
      fits,
      write_loop-splice (allocate mem 0 (length f)) 0 f
          (omega (arith, length-allocate mem 0 (length f)))
          (omega (arith, length-allocate mem 0 (length f))),
      same,
      splice-whole (allocate mem 0 (length f)) f (omega (arith, length-allocate mem 0 (length f))),
    )

pub length-as_slice : (i : Internal) → IsValid i → length (as_slice i) ≡ i.len
unfolding as_slice
length-as_slice i v = omega (arith, length-take i.len i.buf, v.full, v.within)

-- What a fresh buffer is good for: it is valid, and what was asked for fits in.
pub new-IsValid :
    (mem : ℕ → ℕ) (n : ℕ)
    → n < usize_mod
    → IsValid (new mem n) × ((new mem n).cap < usize_mod) × (n ≤ (new mem n).cap)
unfolding new
new-IsValid mem n h = elim (Bool-cases (n == 0)) [
  | inl none_asked ↦
      rw none_asked
        (record { full = length-allocate mem 0 1; within = omega arith }, omega arith, ground arith)
  | inr some_asked ↦
      rw some_asked
        (record { full = length-allocate mem 0 n; within = omega arith }, h, omega arith)
]
