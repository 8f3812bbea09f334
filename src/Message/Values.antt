-- ===== src/Message/Values.antt =====
-- Values in sync and clone messages (src/message.rs, src/syncmessage.rs, src/clonemessage.rs): what is
-- packed is unpacked again, at its own type only.
use water_rs.Prelude.{
  ℕ, suc, ◌<◌, ◌≤◌, ◌≡◌, ◌≢◌, refl, Bool, true, false, done, panicked, arith, ◌==◌,
}
use water_rs.RawMessage.{usize_mod, Internal, IsValid, Layout, writestructref, readstructunsaferef}
use water_rs.RawMessage.{new as new_internal}
use water_rs.RawMessage.Access.{readstruct-writestruct}
use water_rs.RawMessage.Fill.{new-IsValid}
use water_rs.Store.{Store, IsSound, update, RawMessage, new, writestruct, readstructunsafe}
use water_rs.Store.Alias.{update_self, update-update, update-IsSound}
use water_rs.SyncMessage
use water_rs.SyncMessage.{Typed, SyncMessage}
use water_rs.CloneMessage
use water_rs.CloneMessage.{CloneMessage}
use water_rs.Message.{Message, MessagePayload, new_sync, new_clone, typeunwrap, is_type}

module _ {T : Type 0} (l : Layout T) (t : T) (s : Store) (small : l.size_of < usize_mod)
    (sound : IsSound s) where
  fresh : Internal
  fresh = new_internal (s.mem s.next) l.size_of

  fresh-IsValid : IsValid fresh × (fresh.cap < usize_mod) × (l.size_of ≤ fresh.cap)
  unfolding fresh
  fresh-IsValid = new-IsValid (s.mem s.next) l.size_of small

  -- A value in a new buffer, and the store with it.
  packed :
      (j : Internal) × (writestructref l fresh 0 t ≡ done j)
      × IsValid j
      × (j.len ≡ fresh.len)
      × (j.cap ≡ fresh.cap)
      × (readstructunsaferef l j 0 ≡ done t)
  packed =
      readstruct-writestruct l fresh 0 t fresh-IsValid.0 fresh-IsValid.1
        (omega (arith, fresh-IsValid.2))

  stored : Store
  stored = record s { next = suc s.next; buffer = update s.buffer s.next packed.0 }

  stored-IsSound : IsSound stored
  unfolding stored
  stored-IsSound =
      update-IsSound s s.next (suc s.next) packed.0 sound packed.2
        (omega (arith, packed.4, fresh-IsValid.1))

  -- Neither more cells nor other flags matter.
  read_stored :
      (n : ℕ) (b : ℕ → Bool)
      → readstructunsafe l s.next 0 (record stored { next = n; valid = b })
        ≡ done (t, record stored { next = n; valid = b })
  unfolding readstructunsafe stored
  read_stored n b = rw (update_self s.buffer s.next packed.0, packed.5)

-- Both ways to pack a value fit for the net: the message has the type of the value and no other, the
-- value comes out again at that type, and any other type panics.
pub record IsPacked {T : Type 0} (ty : Typed T) (t : T) (msg : Message) (s : Store) : Type 1 where
  pub is_typed : is_type ty msg ≡ true
  pub value : typeunwrap ty msg s ≡ done (t, s)
  pub other_type : {U : Type 0} (u : Typed U) → u.type_id ≢ ty.type_id → is_type u msg ≡ false
  pub other_value :
      {U : Type 0} (u : Typed U) → u.type_id ≢ ty.type_id → typeunwrap u msg s ≡ panicked

-- A sync message and a clone message with the value; the sync message is not taken yet.
abbrev pub Packs : {T : Type 0} → Typed T → T → Store → Type 1
Packs ty t s =
    ((msg : Message) × (u : Store) × (new_sync ty t s ≡ done (msg, u))
      × IsSound u
      × IsPacked ty t msg u
      × ((flag : ℕ) × (u.valid flag ≡ true)
          × ((r : RawMessage) × (msg.payload
                ≡ MessagePayload.sync (record { tyid = ty.type_id; valid = flag; payload = r })))))
    × ((msg : Message) × (u : Store) × (new_clone ty t s ≡ done (msg, u))
        × IsSound u
        × IsPacked ty t msg u)

-- The sync message that packs a value of type `ty` in memory `s`.
abbrev pub packed_message : {T : Type 0} → Typed T → Store → Message
packed_message ty s = record {
  srcsid = 0;
  srceid = 0;
  dstsid = 0;
  dsteid = 0;
  canloop = false;
  payload =
      MessagePayload.sync (record { tyid = ty.type_id; valid = suc s.next; payload = s.next });
}

-- The memory behind it, where the value stands in buffer `j`.
abbrev pub packed_store : Internal → Store → Store
packed_store j s = record s {
  next = suc (suc s.next);
  buffer = update s.buffer s.next j;
  valid = update s.valid (suc s.next) true;
}

-- The same for a clone message.
abbrev pub packed_clone : {T : Type 0} → Typed T → Store → Message
packed_clone ty s = record {
  srcsid = 0;
  srceid = 0;
  dstsid = 0;
  dsteid = 0;
  canloop = false;
  payload = MessagePayload.clone (record { tyid = ty.type_id; payload = s.next });
}

abbrev pub packed_cloned : Internal → Store → Store
packed_cloned j s = record s { next = suc s.next; buffer = update s.buffer s.next j }

not_same : (a b : ℕ) → a ≢ b → (a == b) ≡ false
not_same a b ne = ground arith

same : (a : ℕ) → (a == a) ≡ true
same a = ground arith

module _ {T : Type 0} (ty : Typed T) (t : T) (s : Store) (small : ty.size_of < usize_mod)
    (sound : IsSound s) where
  made : Internal
  made = fresh ty.layout t s small sound

  held :
      (j : Internal) × (writestructref ty.layout made 0 t ≡ done j)
      × IsValid j
      × (j.len ≡ made.len)
      × (j.cap ≡ made.cap)
      × (readstructunsaferef ty.layout j 0 ≡ done t)
  unfolding made
  held = packed ty.layout t s small sound

  at : Store
  at = stored ty.layout t s small sound

  flagged : Store
  flagged = record at { next = suc at.next; valid = update at.valid at.next true }

  sync_message : Message
  unfolding at
  sync_message = record {
    srcsid = 0;
    srceid = 0;
    dstsid = 0;
    dsteid = 0;
    canloop = false;
    payload = MessagePayload.sync (record { tyid = ty.type_id; valid = at.next; payload = s.next });
  }

  clone_message : Message
  clone_message = record sync_message {
    payload = MessagePayload.clone (record { tyid = ty.type_id; payload = s.next });
  }

  new_sync-flagged : new_sync ty t s ≡ done (sync_message, flagged)
  unfolding new_sync SyncMessage.new SyncMessage.new_flag new writestruct sync_message flagged at
      stored made held fresh
  new_sync-flagged =
      rw (update_self s.buffer s.next made, held.1, update-update s.buffer s.next made held.0)

  new_clone-at : new_clone ty t s ≡ done (clone_message, at)
  unfolding new_clone CloneMessage.new new writestruct clone_message sync_message at stored made
      held fresh
  new_clone-at =
      rw (update_self s.buffer s.next made, held.1, update-update s.buffer s.next made held.0)

  sync-IsPacked : IsPacked ty t sync_message flagged
  unfolding is_type typeunwrap SyncMessage.is_type SyncMessage.get_payload sync_message flagged at
  sync-IsPacked = record {
    is_typed = same ty.type_id;
    value = rw (same ty.type_id) (read_stored ty.layout t s small sound _ _);
    other_type = λ u ne. not_same u.type_id ty.type_id ne;
    other_value = λ u ne. rw (not_same u.type_id ty.type_id ne);
  }

  clone-IsPacked : IsPacked ty t clone_message at
  unfolding is_type typeunwrap CloneMessage.is_type CloneMessage.get_payload clone_message
      sync_message at
  clone-IsPacked = record {
    is_typed = same ty.type_id;
    value = rw (same ty.type_id) (read_stored ty.layout t s small sound _ _);
    other_type = λ u ne. not_same u.type_id ty.type_id ne;
    other_value = λ u ne. rw (not_same u.type_id ty.type_id ne);
  }

  -- A value whose size is a `usize`, packed into a sync or a clone message in sound memory, is
  -- found again at its own type; at another type `is_type` is false and `typeunwrap` panics.
  -- The sync message is not taken yet, and the memory stays sound.
  pub typeunwrap-new : Packs ty t s
  unfolding sync_message flagged at
  typeunwrap-new = (
    (
      sync_message,
      flagged,
      new_sync-flagged,
      record { buffers = sound'.buffers; sized = sound'.sized },
      sync-IsPacked,
      (at.next, update_self at.valid at.next true, (s.next, refl)),
    ),
    (clone_message, at, new_clone-at, sound', clone-IsPacked),
  )
    where
      sound' : IsSound at
      sound' = stored-IsSound ty.layout t s small sound

  -- The same, with the memory spelled out.
  pub new_sync-packed :
      (j : Internal) × (new_sync ty t s ≡ done (packed_message ty s, packed_store j s))
      × IsSound (packed_store j s)
      × (readstructunsaferef ty.layout j 0 ≡ done t)
  unfolding sync_message flagged at stored made held
  new_sync-packed =
      let sound' = stored-IsSound ty.layout t s small sound in
      (held.0, new_sync-flagged, record { buffers = sound'.buffers; sized = sound'.sized }, held.5)

  pub new_clone-packed :
      (j : Internal) × (new_clone ty t s ≡ done (packed_clone ty s, packed_cloned j s))
      × IsSound (packed_cloned j s)
      × (readstructunsaferef ty.layout j 0 ≡ done t)
  unfolding clone_message sync_message at stored made held
  new_clone-packed = (held.0, new_clone-at, stored-IsSound ty.layout t s small sound, held.5)
