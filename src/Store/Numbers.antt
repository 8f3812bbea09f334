-- ===== src/Store/Numbers.antt =====
-- `readstruct` and the readers and writers of numbers (src/rawmessage.rs): structures that a type marks
-- as safe to copy. How the compiler lays out the numbers is an argument.
use water_rs.Prelude.{ℕ, ◌+◌, ◌≤◌, ◌≡◌, ◌≢◌, done, arith}
use water_rs.RawMessage.{Layout}
use water_rs.RawMessage.Access.{readstruct-writestruct}
use water_rs.Store.{Store, IsSound, M, RawMessage, update, clone, writestruct, readstructunsafe}
use water_rs.Store.Alias.{update_self, update_ne, update-IsSound}

unfoldable pub readstruct : {T : Type 0} → Layout T → RawMessage → ℕ → M T
unfolding readstructunsafe
readstruct l r offset = readstructunsafe l r offset

-- `readstructref`: what it leaves in the structure.
unfoldable pub readstructref : {T : Type 0} → Layout T → RawMessage → ℕ → M T
unfolding readstructunsafe
readstructref l r offset = readstructunsafe l r offset

module _ {U8 U16 U32 I8 I16 I32 : Type 0} (u8 : Layout U8) (u16 : Layout U16) (u32 : Layout U32)
    (i8 : Layout I8) (i16 : Layout I16) (i32 : Layout I32) where
  unfoldable pub writeu8 : RawMessage → ℕ → U8 → M (Unit {0})
  writeu8 r offset value = writestruct u8 r offset value

  unfoldable pub writeu16 : RawMessage → ℕ → U16 → M (Unit {0})
  writeu16 r offset value = writestruct u16 r offset value

  unfoldable pub writeu32 : RawMessage → ℕ → U32 → M (Unit {0})
  writeu32 r offset value = writestruct u32 r offset value

  unfoldable pub writei8 : RawMessage → ℕ → I8 → M (Unit {0})
  writei8 r offset value = writestruct i8 r offset value

  unfoldable pub writei16 : RawMessage → ℕ → I16 → M (Unit {0})
  writei16 r offset value = writestruct i16 r offset value

  unfoldable pub writei32 : RawMessage → ℕ → I32 → M (Unit {0})
  writei32 r offset value = writestruct i32 r offset value

  unfoldable pub readu8 : RawMessage → ℕ → M U8
  readu8 r offset = readstructunsafe u8 r offset

  unfoldable pub readu16 : RawMessage → ℕ → M U16
  readu16 r offset = readstructunsafe u16 r offset

  unfoldable pub readu32 : RawMessage → ℕ → M U32
  readu32 r offset = readstructunsafe u32 r offset

  unfoldable pub readi8 : RawMessage → ℕ → M I8
  readi8 r offset = readstructunsafe i8 r offset

  unfoldable pub readi16 : RawMessage → ℕ → M I16
  readi16 r offset = readstructunsafe i16 r offset

  unfoldable pub readi32 : RawMessage → ℕ → M I32
  readi32 r offset = readstructunsafe i32 r offset

-- A structure or a number that fits into a message of sound memory is written without a panic, is read
-- back by every owner of the message, and leaves the memory sound and the other messages as they are.
pub readstruct-writestruct_shared :
    {T : Type 0} (l : Layout T) (r offset : ℕ) (t : T) (s : Store)
    → IsSound s
    → offset + l.size_of ≤ (s.buffer r).cap
    → (u : Store) × (writestruct l r offset t s ≡ done (tt, u))
      × IsSound u
      × (readstruct l (clone r) offset u ≡ done (t, u))
      × ((q : ℕ) → r ≢ q → u.buffer q ≡ s.buffer q)
unfolding writestruct readstruct clone
readstruct-writestruct_shared l r offset t s v h =
    let (j, written, valid, len, cap, value) =
      readstruct-writestruct l (s.buffer r) offset t (v.buffers r) (v.sized r) h in
    (
      record s { buffer = update s.buffer r j },
      rw written,
      update-IsSound s r s.next j v valid (omega (arith, cap, v.sized r)),
      rw (update_self s.buffer r j, value),
      λ q ne. update_ne s.buffer r q j ne,
    )
