-- ===== src/CloneMessage.antt =====
-- src/clonemessage.rs: a value that many receivers may take.
use water_rs.Prelude.{ℕ, Bool, ◌==◌, if◌then◌else◌}
use water_rs.Store.{M, pure, panic, ◌>>=◌, ◌>>◌, RawMessage, writestruct, readstructunsafe}
use water_rs.Store.{new as new_raw, clone as clone_raw}
use water_rs.SyncMessage.{Typed}

pub record CloneMessage : Type 0 where
  pub tyid : ℕ
  pub payload : RawMessage

unfoldable pub clone : CloneMessage → CloneMessage
unfolding clone_raw
clone m = record { tyid = m.tyid; payload = clone_raw m.payload }

module _ {T : Type 0} (ty : Typed T) where
  unfoldable pub new : T → M CloneMessage
  unfolding new_raw writestruct
  new t = do
    rmsg ← new_raw ty.size_of
    writestruct ty.layout rmsg 0 t
    pure (record { tyid = ty.type_id; payload = rmsg })

  unfoldable pub is_type : CloneMessage → Bool
  is_type m = ty.type_id == m.tyid

  unfoldable pub get_payload : CloneMessage → M T
  unfolding readstructunsafe
  get_payload m = if ty.type_id == m.tyid then readstructunsafe ty.layout m.payload 0 else panic
