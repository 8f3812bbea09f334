-- ===== src/Compat/Take.antt =====
-- `try_recv` of src/compat.rs takes the first value of a channel.
use water_rs.Prelude.{
  ℕ, suc, ◌≡◌, refl, inl, inr, true, false, List, [], ◌∷◌, some, done, arith, ◌==◌,
}
use water_rs.RawMessage.{readstructunsaferef}
use water_rs.Store.{Store, readstructunsafe}
use water_rs.SyncMessage
use water_rs.SyncMessage.{SyncMessage, Typed}
use water_rs.Message
use water_rs.Message.{Message, MessagePayload}
use water_rs.Endpoint.{Endpoint, IoResult, released}
use water_rs.Endpoint.Receive.{recv-Received, Received, is_stale, after, delivered, after-IsSound}
use water_rs.Net
use water_rs.Net.{Net, set_cell, occurrences}
use water_rs.Compat.{ok, try_recv, instance_of}
use water_rs.Compat.Carries.{Carries, AllCarry, AllCarry-taken, AllCarry-lower}
use water_rs.Compat.Fifo.{Holds}

-- What `try_recv` takes out of a queue of values.
record IsTaken {T : Type 0} (ty : Typed T) (s : Store) (ep : Endpoint) (t : T) (ts : List T)
    (r : Endpoint × IoResult Message) (s' : Store) : Type 0 where
  message : Message
  rest : List Message
  carries : Carries ty s message t
  answer : r ≡ (released ep rest (Message.cap message s), IoResult.ok (delivered message s))
  store : s' ≡ after message s
  left : AllCarry ty s (suc carries.sync.valid) rest ts

module _ {T : Type 0} (ty : Typed T) where
  not_stale : (s : Store) (m : Message) (t : T) (c : Carries ty s m t) → is_stale m s ≡ false
  not_stale s m t c = rw (c.is_sync, c.fresh)

  Received-IsTaken :
      (q : List Message) (s : Store) (ep : Endpoint) (t : T) (ts : List T)
      (r : Endpoint × IoResult Message) (s' : Store)
      → AllCarry ty s 0 q (t ∷ ts)
      → Received q ep s r s'
      → IsTaken ty s ep t ts r s'
  Received-IsTaken [] s ep t ts r s' a got = absurd a
  Received-IsTaken (m ∷ rest) s ep t ts r s' (c, above, left) (inl (stale, got)) =
      let fresh = not_stale s m t c in
      let clash : true ≡ false = cc in absurd (ground (arith, clash))
  Received-IsTaken (m ∷ rest) s ep t ts r s' (c, above, left) (inr (live, er, et)) = record {
    message = m;
    rest = rest;
    carries = c;
    answer = er;
    store = et;
    left = left;
  }

  same : (a : ℕ) → (a == a) ≡ true
  same a = ground arith

  not_raw :
      (m : Message) (y : SyncMessage) → m.payload ≡ MessagePayload.sync y → Message.is_raw m ≡ false
  unfolding Message.is_raw
  not_raw m y p = rw p

  is_type_sync :
      (m : Message) (y : SyncMessage)
      → m.payload ≡ MessagePayload.sync y
      → y.tyid ≡ ty.type_id
      → Message.is_type ty m ≡ true
  unfolding Message.is_type SyncMessage.is_type
  is_type_sync m y p k = rw (p, k, same ty.type_id)

  typeunwrap_sync :
      (m : Message) (y : SyncMessage) (u : Store) (t : T)
      → m.payload ≡ MessagePayload.sync y
      → y.tyid ≡ ty.type_id
      → readstructunsaferef ty.layout (u.buffer y.payload) 0 ≡ done t
      → Message.typeunwrap ty m u ≡ done (t, u)
  unfolding Message.typeunwrap SyncMessage.get_payload readstructunsafe
  typeunwrap_sync m y u t p k e = rw (p, k, same ty.type_id, e)

  instance_of_sync :
      (m : Message) (y : SyncMessage) (u : Store) (t : T)
      → m.payload ≡ MessagePayload.sync y
      → y.tyid ≡ ty.type_id
      → readstructunsaferef ty.layout (u.buffer y.payload) 0 ≡ done t
      → instance_of ty m u ≡ done (some t, u)
  unfolding instance_of
  instance_of_sync m y u t p k e =
      rw (instance_of, not_raw m y p, is_type_sync m y p k, typeunwrap_sync m y u t p k e)

  instance_of_taken :
      (s : Store) (m : Message) (t : T)
      → Carries ty s m t
      → instance_of ty (delivered m s) (after m s) ≡ done (some t, after m s)
  instance_of_taken s m t c =
      instance_of_sync (delivered m s) c.sync (after m s) t (rw c.is_sync) c.tyid
        (rw c.is_sync c.value)

  taken-Holds :
      (net : Net) (s : Store) (t : T) (ts : List T) (r : Endpoint × IoResult Message) (s' : Store)
      → Holds ty net s (t ∷ ts)
      → (g : IsTaken ty s (net.cell 1) t ts r s') → Holds ty (set_cell net 1 r.0) s' ts
  taken-Holds net s t ts r s' h g = record {
    sound = rw g.store (after-IsSound g.message.payload s h.sound);
    listed = h.listed;
    apart = rw g.answer h.apart;
    local_net = rw g.answer h.local_net;
    limitpending = rw g.answer h.limitpending;
    limitmemory = rw g.answer h.limitmemory;
    held = (h.held.0, rw g.answer h.held.1);
    queued =
        rw (g.answer, g.store, g.carries.is_sync)
          (AllCarry-lower ty _ (suc g.carries.sync.valid) 0 g.rest ts (omega arith) (
            AllCarry-taken ty s g.carries.sync.valid (suc g.carries.sync.valid) g.rest ts
              (omega arith) g.left));
  }

  pub try_recv-Holds :
      (net : Net) (s : Store) (t : T) (ts : List T)
      → Holds ty net s (t ∷ ts)
      → (net' : Net) × (s' : Store) × (try_recv ty net 1 s ≡ done ((net', some (ok t)), s'))
        × Holds ty net' s' ts
  unfolding try_recv Net.endpoint_recv
  try_recv-Holds net s t ts h =
      let (r, s', run, got) = recv-Received (net.cell 1) s h.sound in
      let g = Received-IsTaken (net.cell 1).messages.vec s (net.cell 1) t ts r s' h.queued got in
      (
        set_cell net 1 r.0,
        s',
        rw (run, g.answer, g.store, instance_of_taken s g.message t g.carries) refl,
        taken-Holds net s t ts r s' h g,
      )
