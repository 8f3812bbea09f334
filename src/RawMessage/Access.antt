-- ===== src/RawMessage/Access.antt =====
-- What the reads and writes of src/rawmessage.rs do to the buffer, within the bounds and past them.
use water_rs.Prelude.{
  ℕ, suc, ◌+◌, ◌%◌, ◌≤◌, ◌<◌, ◌≡◌, refl, ◌⊎◌, inl, inr, ap, List, [], ◌∷◌, arith, ltb, ◌==◌, length,
  take, set, length-set, done, ◌>>=◌, Bool-cases, false,
}
use water_rs.RawMessage.Memory.{
  allocate, length-allocate, splice, slice, copy_memory, length-splice, take-length,
  slice-splice_self, drop-splice_above, slice-splice_below, copy_memory-done, poke-done,
  copy_memory-whole, eq-nil_of_length, splice-set, splice-nil,
}
use water_rs.RawMessage.{
  usize_mod, Internal, IsValid, Layout, as_slice, dup, write_loop, writestructref,
  readstructunsaferef,
}

pub write_loop-splice :
    (buf : List ℕ) (off : ℕ) (f : List ℕ)
    → off + length f ≤ length buf
    → length buf < usize_mod
    → write_loop buf off f ≡ done (splice buf off f, off + length f)
unfolding write_loop
write_loop-splice buf off [] h k = ground (arith, splice-nil buf off)
write_loop-splice buf off (b ∷ f) h k =
    rw (poke-done buf off b (omega arith), next)
      (rw
        (
          write_loop-splice (set buf off b) (suc off) f (omega (arith, length-set buf off b))
              (omega (arith, length-set buf off b)),
          splice-set buf off b f (omega arith),
        )
        (ap (λ n. done (splice buf off (b ∷ f), n)) (omega arith)))
  where
    next : (off + 1) % usize_mod ≡ suc off
    next = omega arith

-- A fresh copy of a valid buffer has its bytes and its capacity, and is as long as its capacity,
-- whatever the length was.
pub dup_lem :
    (mem : ℕ → ℕ) (i : Internal)
    → IsValid i
    → dup mem i ≡ done (record { len = i.cap; cap = i.cap; buf = i.buf })
unfolding dup
dup_lem mem i v =
    rw (copy_memory-whole (allocate mem 0 i.cap) i.buf i.cap (length-allocate mem 0 i.cap) v.full)

writestructref-done :
    {T : Type 0} (l : Layout T) (i : Internal) (offset : ℕ) (t : T)
    → IsValid i
    → i.cap < usize_mod
    → offset + l.size_of ≤ i.cap
    → writestructref l i offset t ≡ done (record i { buf = splice i.buf offset (l.to_bytes t) })
unfolding writestructref
writestructref-done l i offset t v c h = elim (Bool-cases (l.size_of == 0)) [
  | inl e ↦
      let z : l.to_bytes t ≡ [] =
        eq-nil_of_length (l.to_bytes t) (ground (arith, l.length-to_bytes t)) in
      rw (in_range, e, z, splice-nil i.buf offset)
  | inr e ↦ rw (
    in_range,
    e,
    written,
    take-length (l.to_bytes t) l.size_of (omega (arith, l.length-to_bytes t)),
  )
]
  where
    in_range : ltb i.cap ((offset + l.size_of) % usize_mod) ≡ false
    in_range = ground arith

    written :
        copy_memory i.buf offset (l.to_bytes t) l.size_of
        ≡ done (splice i.buf offset (take l.size_of (l.to_bytes t)))
    written =
        copy_memory-done i.buf (l.to_bytes t) offset l.size_of (omega (arith, v.full))
          (omega (arith, l.length-to_bytes t))

readstructunsaferef-done :
    {T : Type 0} (l : Layout T) (i : Internal) (offset : ℕ)
    → IsValid i
    → i.cap < usize_mod
    → offset + l.size_of ≤ i.cap
    → readstructunsaferef l i offset ≡ done (l.of_bytes (slice i.buf offset l.size_of))
unfolding readstructunsaferef
readstructunsaferef-done l i offset v c h = ground (arith, v.full)

pub splice-IsValid :
    (i : Internal) (offset : ℕ) (bs : List ℕ)
    → IsValid i
    → offset + length bs ≤ i.cap
    → IsValid (record i { buf = splice i.buf offset bs })
splice-IsValid i offset bs v h = record {
  full = omega (arith, length-splice i.buf offset bs, v.full);
  within = v.within;
}

module _ {T : Type 0} (l : Layout T) (i : Internal) (offset : ℕ) (t : T) (v : IsValid i)
    (c : i.cap < usize_mod) (h : offset + l.size_of ≤ i.cap) where
  written : Internal
  written = record i { buf = splice i.buf offset (l.to_bytes t) }

  written-IsValid : IsValid written
  unfolding written
  written-IsValid = splice-IsValid i offset (l.to_bytes t) v (omega (arith, l.length-to_bytes t))

  written-read : readstructunsaferef l written offset ≡ done t
  unfolding written
  written-read = rw (
    readstructunsaferef-done l written offset written-IsValid c h,
    ← l.length-to_bytes t,
    slice-splice_self i.buf offset (l.to_bytes t) (omega (arith, v.full)),
    l.of_bytes-to_bytes t,
  )

  -- A value written to a valid buffer at an offset where it fits is read back there, and the
  -- buffer stays valid with its length and capacity.
  pub readstruct-writestruct :
      (j : Internal) × (writestructref l i offset t ≡ done j)
      × IsValid j
      × (j.len ≡ i.len)
      × (j.cap ≡ i.cap)
      × (readstructunsaferef l j offset ≡ done t)
  unfolding written
  readstruct-writestruct =
      (written, writestructref-done l i offset t v c h, written-IsValid, refl, refl, written-read)

  -- A value of any type within a valid buffer that lies apart from the one that is written
  -- there reads as before.
  pub readstruct-writestruct_apart :
      {U : Type 0} (m : Layout U) (at : ℕ)
      → at + m.size_of ≤ i.cap
      → (at + m.size_of ≤ offset) ⊎ (offset + l.size_of ≤ at)
      → (writestructref l i offset t >>= λ j. readstructunsaferef m j at)
        ≡ readstructunsaferef m i at
  unfolding written
  readstruct-writestruct_apart m at r apart =
      rw
        (
          writestructref-done l i offset t v c h,
          readstructunsaferef-done m written at written-IsValid c r,
          readstructunsaferef-done m i at v c r,
        )
        (ap (λ bs. done (m.of_bytes bs)) (same apart))
    where
      same :
          (at + m.size_of ≤ offset) ⊎ (offset + l.size_of ≤ at)
          → slice written.buf at m.size_of ≡ slice i.buf at m.size_of
      same (inl below) = slice-splice_below i.buf offset (l.to_bytes t) at m.size_of below
      same (inr above) =
          ap (take m.size_of)
            (drop-splice_above i.buf offset (l.to_bytes t) at (omega (arith, l.length-to_bytes t)))

-- The slice of a buffer that is as long as its capacity is the whole block.
pub as_slice_full :
    (i : Internal) → IsValid i → as_slice (record { len = i.cap; cap = i.cap; buf = i.buf }) ≡ i.buf
unfolding as_slice
as_slice_full i v = take-length i.buf i.cap (omega (arith, v.full))
