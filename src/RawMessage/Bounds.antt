-- ===== src/RawMessage/Bounds.antt =====
-- Bounds of src/rawmessage.rs: writes that fit, writes that are refused, and accesses that leave the
-- buffer.
use water_rs.Prelude.{
  ℕ, suc, ◌+◌, ◌%◌, ◌≤◌, ◌<◌, ◌≡◌, refl, ◌≢◌, ap, List, [], ◌∷◌, arith, ltb, leb, ◌==◌,
  if◌then◌else◌, length, take, drop, done, panicked, undefined, true, false, max,
}
use water_rs.RawMessage.Memory.{
  allocate, length-allocate, splice, slice, length-splice, take-length, slice-splice_self,
  drop-splice_above, slice-splice_below, copy_memory-whole, copy_memory-undefined, copy_memory-done,
  splice-nil, allocate_one,
}
use water_rs.RawMessage.{
  usize_mod, Internal, IsValid, Layout, new, resize, new_fromstr, write_from_slice, as_slice,
  writestructref, readstructunsaferef, write_loop,
}
use water_rs.RawMessage.Access.{write_loop-splice}

-- What `write_from_slice` leaves behind when the bytes fit: they stand at the offset, nothing else
-- of the block has changed, and the length covers them.
pub record IsWritten (i : Internal) (offset : ℕ) (f : List ℕ) (j : Internal) : Type 0 where
  pub valid : IsValid j
  pub same_cap : j.cap ≡ i.cap
  pub len : j.len ≡ max i.len (offset + length f)
  pub there : slice j.buf offset (length f) ≡ f
  pub before : take offset j.buf ≡ take offset i.buf
  pub behind : drop (offset + length f) j.buf ≡ drop (offset + length f) i.buf

-- `write_from_slice` of a valid buffer writes exactly the given bytes when they end within the
-- capacity, and panics when they end past it, as long as the end does not overflow a `usize`.
pub write_from_slice-IsWritten :
    (i : Internal) (offset : ℕ) (f : List ℕ)
    → IsValid i
    → i.cap < usize_mod
    → offset + length f < usize_mod
    → (offset + length f ≤ i.cap
        → (j : Internal) × (write_from_slice i offset f ≡ done j) × IsWritten i offset f j)
      × (i.cap < offset + length f → write_from_slice i offset f ≡ panicked)
unfolding write_from_slice
write_from_slice-IsWritten i offset f v c h =
    (λ fits. (after, rw (in_range fits, loop fits), is_written fits), λ past. ground arith)
  where
    after : Internal
    after = record i {
      buf = splice i.buf offset f;
      len = if ltb i.len (offset + length f) then offset + length f else i.len;
    }

    in_range : offset + length f ≤ i.cap → ltb i.cap ((offset + length f) % usize_mod) ≡ false
    in_range fits = ground arith

    loop :
        offset + length f ≤ i.cap
        → write_loop i.buf offset f ≡ done (splice i.buf offset f, offset + length f)
    loop fits = write_loop-splice i.buf offset f (omega (arith, v.full)) (omega (arith, v.full))

    is_written : offset + length f ≤ i.cap → IsWritten i offset f after
    is_written fits = record {
      valid = record {
        full = omega (arith, length-splice i.buf offset f, v.full);
        within = ground (arith, v.within);
      };
      same_cap = refl;
      len = ground arith;
      there = slice-splice_self i.buf offset f (omega (arith, v.full));
      before = slice-splice_below i.buf offset f 0 offset (omega arith);
      behind = drop-splice_above i.buf offset f (offset + length f) (omega arith);
    }

-- Where the end of a value that is not empty overflows a `usize`, to a number within the capacity
-- of a valid buffer, the check passes and both a write and a read leave the buffer.
pub writestructref_overflow :
    {T : Type 0} (l : Layout T) (i : Internal) (offset : ℕ) (t : T)
    → IsValid i
    → i.cap < usize_mod
    → offset < usize_mod
    → 0 < l.size_of
    → usize_mod ≤ offset + l.size_of
    → offset + l.size_of ≤ usize_mod + i.cap
    → (writestructref l i offset t ≡ undefined) × (readstructunsaferef l i offset ≡ undefined)
unfolding writestructref readstructunsaferef
writestructref_overflow l i offset t v c o s over within = (
  ground (arith, copy_memory-undefined i.buf (l.to_bytes t) offset l.size_of, v.full),
  ground (arith, v.full),
)

resize_same : (mem : ℕ → ℕ) (i : Internal) → IsValid i → resize mem i i.cap ≡ done i
unfolding resize
resize_same mem i v =
    let whole : leb i.cap i.cap ≡ true = ground arith in
    let fits : ltb i.cap i.len ≡ false = ground (arith, v.within) in
    rw (
      whole,
      copy_memory-whole (allocate mem 0 i.cap) i.buf i.cap (length-allocate mem 0 i.cap) v.full,
      fits,
    )

-- `resize` of a valid buffer to any other capacity copies past the end of a block; to its own
-- capacity it changes nothing.
pub resize-undefined :
    (mem : ℕ → ℕ) (i : Internal) (newcap : ℕ)
    → IsValid i
    → (newcap ≢ i.cap → resize mem i newcap ≡ undefined)
      × (newcap ≡ i.cap → resize mem i newcap ≡ done i)
unfolding resize
resize-undefined mem i newcap v = (
  λ ne. ground (
    arith,
    v.full,
    length-allocate mem 0 newcap,
    copy_memory-undefined (allocate mem 0 newcap) i.buf 0 i.cap,
    copy_memory-undefined (allocate mem 0 newcap) i.buf 0 newcap,
  ),
  λ e. rw e (resize_same mem i v),
)

-- `new_fromstr` of a text that is not empty holds that text, and of the empty text one byte that
-- nobody wrote.
pub new_fromstr_lem :
    (mem : ℕ → ℕ) (s : List ℕ)
    → (i : Internal) × (new_fromstr mem s ≡ done i)
      × IsValid i
      × (as_slice i ≡ (if length s == 0 then mem 0 ∷ [] else s))
unfolding new_fromstr new as_slice
new_fromstr_lem mem [] = (
  record { len = 1; cap = 1; buf = mem 0 ∷ [] },
  rw
      (
        copy_memory-done (allocate mem 0 1) [] 0 0 (omega (arith, length-allocate mem 0 1))
            (omega arith),
        splice-nil (allocate mem 0 1) 0,
      )
      (ap (λ bs. done (record { len = 1; cap = 1; buf = bs })) (allocate_one mem)),
  omega arith,
  refl,
)
new_fromstr_lem mem (b ∷ s) =
    let some_byte : (suc (length s) == 0) ≡ false = ground arith in
    (
      record { len = suc (length s); cap = suc (length s); buf = b ∷ s },
      rw (
        some_byte,
        copy_memory-whole (allocate mem 0 (suc (length s))) (b ∷ s) (suc (length s))
            (length-allocate mem 0 (suc (length s))) refl,
      ),
      omega arith,
      rw some_byte (take-length (b ∷ s) (suc (length s)) (omega arith)),
    )
