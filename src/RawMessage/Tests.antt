-- ===== src/RawMessage/Tests.antt =====
-- Runs of the theorems on src/rawmessage.rs.
use water_rs.Prelude.{ℕ, ◌+◌, ◌-◌, ◌<◌, ◌≤◌, ◌≡◌, refl, [], ◌∷◌, arith, done, panicked, undefined}
use water_rs.RawMessage.{
  usize_mod, Internal, IsValid, resize, write_from_slice, writestructref, readstructunsaferef,
}
use water_rs.RawMessage.Bounds.{
  IsWritten, write_from_slice-IsWritten, writestructref_overflow, resize-undefined,
}
use water_rs.Samples.{Point, point_layout, three_bytes}

abbrev mem : ℕ → ℕ
mem i = i

abbrev point : Point
point = record { x = 1; y = 2 }

valid : IsValid three_bytes
valid = record { full = refl; within = omega arith }

write_from_slice-IsWritten_example :
    (1 + 2 ≤ 3
      → (j : Internal) × (write_from_slice three_bytes 1 (4 ∷ 5 ∷ []) ≡ done j)
        × IsWritten three_bytes 1 (4 ∷ 5 ∷ []) j)
    × (3 < 1 + 2 → write_from_slice three_bytes 1 (4 ∷ 5 ∷ []) ≡ panicked)
write_from_slice-IsWritten_example =
    write_from_slice-IsWritten three_bytes 1 (4 ∷ 5 ∷ []) valid (omega arith) (omega arith)

writestructref_overflow_example :
    (writestructref point_layout three_bytes (usize_mod - 1) point ≡ undefined)
    × (readstructunsaferef point_layout three_bytes (usize_mod - 1) ≡ undefined)
writestructref_overflow_example =
    writestructref_overflow point_layout three_bytes (usize_mod - 1) point valid (omega arith)
      (omega arith) (omega arith) (omega arith) (omega arith)

resize-undefined_example :
    (¬ (◌≡◌ {A = ℕ} 5 3) → resize mem three_bytes 5 ≡ undefined)
    × (◌≡◌ {A = ℕ} 5 3 → resize mem three_bytes 5 ≡ done three_bytes)
resize-undefined_example = resize-undefined mem three_bytes 5 valid
