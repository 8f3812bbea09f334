-- ===== src/SyncMessage.antt =====
-- src/syncmessage.rs: a value that only one receiver may take.
use water_rs.Prelude.{ℕ, suc, Bool, true, false, done, ◌==◌, if◌then◌else◌}
use water_rs.RawMessage.{Layout}
use water_rs.Store.{
  Store, update, M, pure, panic, ◌>>=◌, ◌>>◌, RawMessage, writestruct, readstructunsafe,
}
use water_rs.Store.{new as new_raw, clone as clone_raw}

-- A type with the `TypeId` that the compiler gives it.
pub record Typed (T : Type 0) : Type 0 where
  pub layout : Layout T
  pub open layout use *
  pub type_id : ℕ

-- `valid` is the number of the shared flag.
pub record SyncMessage : Type 0 where
  pub tyid : ℕ
  pub valid : ℕ
  pub payload : RawMessage

-- The key that guards `internal_clone`.
abbrev pub internal_key : ℕ
internal_key = 0x879

module _ {T : Type 0} (ty : Typed T) where
  unfoldable pub get_payload : SyncMessage → M T
  unfolding readstructunsafe
  get_payload m = if ty.type_id == m.tyid then readstructunsafe ty.layout m.payload 0 else panic

  unfoldable pub is_type : SyncMessage → Bool
  is_type m = ty.type_id == m.tyid

-- `Arc::new(Mutex::new(b))`.
unfoldable pub new_flag : Bool → M ℕ
new_flag b s = done (s.next, record s { next = suc s.next; valid = update s.valid s.next b })

unfoldable pub new : {T : Type 0} → Typed T → T → M SyncMessage
unfolding new_raw writestruct new_flag
new ty t = do
  rmsg ← new_raw ty.size_of
  writestruct ty.layout rmsg 0 t
  flag ← new_flag true
  pure (record { tyid = ty.type_id; valid = flag; payload = rmsg })

-- The clone shares the flag and the payload.
unfoldable pub internal_clone : SyncMessage → ℕ → M SyncMessage
unfolding clone_raw
internal_clone m key =
    if key == internal_key
    then pure (record { tyid = m.tyid; valid = m.valid; payload = clone_raw m.payload })
    else panic

-- The first call on a flag takes the message; the later ones fail.
unfoldable pub takeasvalid : SyncMessage → Store → Bool × Store
takeasvalid m s =
    if s.valid m.valid
    then (true, record s { valid = update s.valid m.valid false })
    else (false, s)
