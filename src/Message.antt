-- ===== src/Message.antt =====
-- src/message.rs: a message with its addresses and one of three payloads. A method that matches on
-- the payload has a helper by clauses; a panic of the source is `panic`.
mod Defs
pub mod Values
mod Tests
pub use Defs.*
use water_rs.Prelude.{ℕ, Bool, true, false, ◌==◌, if◌then◌else◌}
use water_rs.Store.{
  Store, M, pure, panic, ◌>>=◌, ◌>>◌, RawMessage, cap as raw_cap, clone as clone_raw,
  dup as dup_raw, new as new_rawmessage,
}
use water_rs.SyncMessage
use water_rs.SyncMessage.{SyncMessage, Typed, internal_key}
use water_rs.CloneMessage
use water_rs.CloneMessage.{CloneMessage}

cap_payload : MessagePayload → Store → ℕ
cap_payload (MessagePayload.raw r) s = raw_cap r s
cap_payload (MessagePayload.sync m) s = raw_cap m.payload s
cap_payload (MessagePayload.clone m) s = raw_cap m.payload s

unfoldable pub cap : Message → Store → ℕ
unfolding cap_payload raw_cap
cap msg s = cap_payload msg.payload s

clone_payload : MessagePayload → M MessagePayload
clone_payload (MessagePayload.raw r) = pure (MessagePayload.raw (clone_raw r))
clone_payload (MessagePayload.sync m) = panic
clone_payload (MessagePayload.clone m) = pure (MessagePayload.clone (CloneMessage.clone m))

unfoldable pub clone : Message → M Message
unfolding clone_payload clone_raw CloneMessage.clone
clone msg = do p ← clone_payload msg.payload; pure (record msg { payload = p })

internal_clone_payload : MessagePayload → ℕ → M MessagePayload
unfolding clone_payload
internal_clone_payload (MessagePayload.sync m) key = do
  m' ← SyncMessage.internal_clone m internal_key
  pure (MessagePayload.sync m')
internal_clone_payload (MessagePayload.raw r) key = clone_payload (MessagePayload.raw r)
internal_clone_payload (MessagePayload.clone m) key = clone_payload (MessagePayload.clone m)

unfoldable pub internal_clone : Message → ℕ → M Message
unfolding internal_clone_payload clone_raw CloneMessage.clone SyncMessage.internal_clone
internal_clone msg key =
    if key == internal_key
    then (do p ← internal_clone_payload msg.payload key; pure (record msg { payload = p }))
    else panic

dup_payload : MessagePayload → M MessagePayload
dup_payload (MessagePayload.raw r) = do r' ← dup_raw r; pure (MessagePayload.raw r')
dup_payload (MessagePayload.sync m) = panic
dup_payload (MessagePayload.clone m) = panic

unfoldable pub dup : Message → M Message
unfolding dup_payload
dup msg = do p ← dup_payload msg.payload; pure (record msg { payload = p })

dup_ifok_payload : MessagePayload → M MessagePayload
dup_ifok_payload (MessagePayload.raw r) = do r' ← dup_raw r; pure (MessagePayload.raw r')
dup_ifok_payload (MessagePayload.sync m) = pure (MessagePayload.sync m)
dup_ifok_payload (MessagePayload.clone m) = pure (MessagePayload.clone m)

unfoldable pub dup_ifok : Message → M Message
unfolding dup_ifok_payload
dup_ifok msg = do p ← dup_ifok_payload msg.payload; pure (record msg { payload = p })

raw_of : MessagePayload → M RawMessage
raw_of (MessagePayload.raw r) = pure r
raw_of (MessagePayload.sync m) = panic
raw_of (MessagePayload.clone m) = panic

unfoldable pub get_raw : Message → M RawMessage
unfolding raw_of
get_raw msg = raw_of msg.payload

-- The reference is to the handle; what it points at is in the store.
unfoldable pub get_rawmutref : Message → M RawMessage
unfolding raw_of
get_rawmutref msg = raw_of msg.payload

unfoldable pub get_rawref : Message → M RawMessage
unfolding raw_of
get_rawref msg = raw_of msg.payload

sync_of : MessagePayload → M SyncMessage
sync_of (MessagePayload.sync m) = pure m
sync_of (MessagePayload.raw r) = panic
sync_of (MessagePayload.clone m) = panic

unfoldable pub get_syncref : Message → M SyncMessage
unfolding sync_of
get_syncref msg = sync_of msg.payload

unfoldable pub get_sync : Message → M SyncMessage
unfolding sync_of
get_sync msg = sync_of msg.payload

unfoldable pub get_syncmutref : Message → M SyncMessage
unfolding sync_of
get_syncmutref msg = sync_of msg.payload

clone_of : MessagePayload → M CloneMessage
clone_of (MessagePayload.clone m) = pure m
clone_of (MessagePayload.raw r) = panic
clone_of (MessagePayload.sync m) = panic

unfoldable pub get_cloneref : Message → M CloneMessage
unfolding clone_of
get_cloneref msg = clone_of msg.payload

unfoldable pub get_clone : Message → M CloneMessage
unfolding clone_of
get_clone msg = clone_of msg.payload

unfoldable pub get_clonemutref : Message → M CloneMessage
unfolding clone_of
get_clonemutref msg = clone_of msg.payload

is_clone_payload : MessagePayload → Bool
is_clone_payload (MessagePayload.clone m) = true
is_clone_payload (MessagePayload.raw r) = false
is_clone_payload (MessagePayload.sync m) = false

unfoldable pub is_clone : Message → Bool
unfolding is_clone_payload
is_clone msg = is_clone_payload msg.payload

is_raw_payload : MessagePayload → Bool
is_raw_payload (MessagePayload.raw r) = true
is_raw_payload (MessagePayload.sync m) = false
is_raw_payload (MessagePayload.clone m) = false

unfoldable pub is_raw : Message → Bool
unfolding is_raw_payload
is_raw msg = is_raw_payload msg.payload

is_sync_payload : MessagePayload → Bool
is_sync_payload (MessagePayload.sync m) = true
is_sync_payload (MessagePayload.raw r) = false
is_sync_payload (MessagePayload.clone m) = false

unfoldable pub is_sync : Message → Bool
unfolding is_sync_payload
is_sync msg = is_sync_payload msg.payload

-- A message that is not addressed yet.
abbrev unaddressed : MessagePayload → Message
unaddressed p = record {
  srcsid = 0;
  srceid = 0;
  dstsid = 0;
  dsteid = 0;
  canloop = false;
  payload = p;
}

unfoldable pub new_fromraw : RawMessage → Message
new_fromraw rmsg = unaddressed (MessagePayload.raw rmsg)

unfoldable pub new_raw : ℕ → M Message
new_raw cap = do r ← new_rawmessage cap; pure (unaddressed (MessagePayload.raw r))

module _ {T : Type 0} (ty : Typed T) where
  unfoldable pub new_clone : T → M Message
  new_clone t = do m ← CloneMessage.new ty t; pure (unaddressed (MessagePayload.clone m))

  unfoldable pub new_sync : T → M Message
  new_sync t = do m ← SyncMessage.new ty t; pure (unaddressed (MessagePayload.sync m))

  typeunwrap_payload : MessagePayload → M T
  typeunwrap_payload (MessagePayload.clone m) = CloneMessage.get_payload ty m
  typeunwrap_payload (MessagePayload.sync m) = SyncMessage.get_payload ty m
  typeunwrap_payload (MessagePayload.raw r) = panic

  unfoldable pub typeunwrap : Message → M T
  unfolding typeunwrap_payload
  typeunwrap msg = typeunwrap_payload msg.payload

  -- `is_type`: the two tests read the references that `is_sync` and `is_clone` guard.
  is_type_payload : MessagePayload → Bool
  is_type_payload (MessagePayload.sync m) = SyncMessage.is_type ty m
  is_type_payload (MessagePayload.clone m) = CloneMessage.is_type ty m
  is_type_payload (MessagePayload.raw r) = false

  unfoldable pub is_type : Message → Bool
  unfolding is_type_payload SyncMessage.is_type CloneMessage.is_type
  is_type msg = is_type_payload msg.payload
