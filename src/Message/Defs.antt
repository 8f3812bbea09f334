-- ===== src/Message/Defs.antt =====
-- The data of src/message.rs.
use water_rs.Prelude.{ℕ, Bool}
use water_rs.Store.{RawMessage}
use water_rs.SyncMessage.{SyncMessage}
use water_rs.CloneMessage.{CloneMessage}

pub data MessagePayload : Type 0 where
  raw : RawMessage → MessagePayload
  sync : SyncMessage → MessagePayload
  clone : CloneMessage → MessagePayload

pub record Message : Type 0 where
  pub srcsid : ℕ
  pub srceid : ℕ
  pub dstsid : ℕ
  pub dsteid : ℕ
  pub canloop : Bool
  pub payload : MessagePayload
