-- ===== src/RawMessage.antt =====
-- `Internal` of src/rawmessage.rs: a byte buffer with a length and a capacity, and the operations of
-- `RawMessage` on it. Sizes and offsets are `usize`: sums wrap at 2 ^ 64.
pub mod Memory
pub mod Access
pub mod Bounds
pub mod Fill
mod Tests
use water_rs.Prelude.{
  ℕ, zero, suc, ◌+◌, ◌%◌, ◌^◌, ◌≤◌, ◌≡◌, List, [], ◌∷◌, ltb, leb, ◌==◌, if◌then◌else◌, length, take,
  Outcome, done, panicked, undefined, ◌>>=◌, ◌>>◌,
}
use Memory.{allocate, copy_memory, poke, slice}

abbrev pub usize_mod : ℕ
usize_mod = 2 ^ 64

pub record Internal : Type 0 where
  pub len : ℕ
  pub cap : ℕ
  pub buf : List ℕ

-- What `allocate` promises and the operations keep.
pub record IsValid (i : Internal) : Type 0 where
  pub full : length i.buf ≡ i.cap
  pub within : i.len ≤ i.cap

-- How the compiler lays a type out in memory.
pub record Layout (T : Type 0) : Type 0 where
  pub size_of : ℕ
  pub to_bytes : T → List ℕ
  pub of_bytes : List ℕ → T
  pub length-to_bytes : (t : T) → length (to_bytes t) ≡ size_of
  pub of_bytes-to_bytes : (t : T) → of_bytes (to_bytes t) ≡ t

-- `mem` is what stands in the memory that `allocate` returns.
pub new : (mem : ℕ → ℕ) → ℕ → Internal
new mem cap = record { len = c; cap = c; buf = allocate mem 0 c }
  where
    c : ℕ
    c = if cap == 0 then 1 else cap

pub dup : (mem : ℕ → ℕ) → Internal → Outcome Internal
dup mem i = do
  buf ← copy_memory (allocate mem 0 i.cap) 0 i.buf i.cap
  done (record { len = i.cap; cap = i.cap; buf = buf })

pub setlen : Internal → ℕ → Outcome Internal
setlen i len = if ltb i.cap len then panicked else done (record i { len = len })

pub resize : (mem : ℕ → ℕ) → Internal → ℕ → Outcome Internal
resize mem i newcap = do
  buf ← copy_memory (allocate mem 0 newcap) 0 i.buf (if leb newcap i.cap then i.cap else newcap)
  done (record { len = if ltb newcap i.len then newcap else i.len; cap = newcap; buf = buf })

-- `new_fromstr`.
pub new_fromstr : (mem : ℕ → ℕ) → List ℕ → Outcome Internal
new_fromstr mem s = do
  let i = new mem (length s)
  buf ← copy_memory i.buf 0 s (length s)
  done (record i { buf = buf })

-- The loop of `write_from_slice`: the block and the offset behind the last byte.
pub write_loop : List ℕ → ℕ → List ℕ → Outcome (List ℕ × ℕ)
write_loop buf offset [] = done (buf, offset)
write_loop buf offset (item ∷ f) =
    poke buf offset item >>= λ buf'. write_loop buf' ((offset + 1) % usize_mod) f

pub write_from_slice : Internal → ℕ → List ℕ → Outcome Internal
write_from_slice i offset f = if ltb i.cap ((offset + length f) % usize_mod) then panicked else do
  (buf, end) ← write_loop i.buf offset f
  done (record i { buf = buf; len = if ltb i.len end then end else i.len })

pub as_slice : Internal → List ℕ
as_slice i = take i.len i.buf

module _ {T : Type 0} (l : Layout T) where
  pub writestructref : Internal → ℕ → T → Outcome Internal
  writestructref i offset t =
      if ltb i.cap ((offset + l.size_of) % usize_mod)
      then panicked
      else if l.size_of == 0
      then done i
      else do buf ← copy_memory i.buf offset (l.to_bytes t) l.size_of; done (record i { buf = buf })

  pub readstructunsaferef : Internal → ℕ → Outcome T
  readstructunsaferef i offset =
      if ltb i.cap ((offset + l.size_of) % usize_mod)
      then panicked
      else if leb (offset + l.size_of) (length i.buf)
      then done (l.of_bytes (slice i.buf offset l.size_of))
      else undefined
