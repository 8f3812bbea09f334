-- ===== src/Endpoint/Receive.antt =====
-- `Internal::recv` (src/endpoint.rs): what a receiver gets, in which order, and what it costs.
use water_rs.Prelude.{
  ℕ, ◌+◌, ◌-◌, ◌%◌, ◌≤◌, ◌<◌, arith, length, suc, ◌≡◌, refl, ◌⊎◌, inl, inr, Bool, true, false, List,
  [], ◌∷◌, done, Bool-cases, ap, not,
}
use water_rs.RawMessage.{usize_mod}
use water_rs.Store.{Store, IsSound, update, RawMessage}
use water_rs.Store.Alias.{after_dup, dup-done, after_dup-IsSound, copied, update_self}
use water_rs.SyncMessage.{SyncMessage, takeasvalid}
use water_rs.Message
use water_rs.Message.{Message, MessagePayload}
use water_rs.Endpoint.{Endpoint, IoResult, err, ok, no_messages, released, recv, recv_loop, finish}

-- A sync message that some receiver has taken.
abbrev pub is_stale_payload : MessagePayload → Store → Bool
is_stale_payload (MessagePayload.sync m) s = not (s.valid m.valid)
is_stale_payload (MessagePayload.raw r) s = false
is_stale_payload (MessagePayload.clone m) s = false

abbrev pub is_stale : Message → Store → Bool
is_stale msg s = is_stale_payload msg.payload s

-- What a receiver gets of a message: raw bytes of its own, or the shared value.
abbrev pub delivered_payload : MessagePayload → Store → MessagePayload
delivered_payload (MessagePayload.raw r) s = MessagePayload.raw (suc s.next)
delivered_payload (MessagePayload.sync m) s = MessagePayload.sync m
delivered_payload (MessagePayload.clone m) s = MessagePayload.clone m

abbrev pub delivered : Message → Store → Message
delivered msg s = record msg { payload = delivered_payload msg.payload s }

-- The store behind it: a raw message is copied twice, a sync message is marked as taken.
abbrev pub after_payload : MessagePayload → Store → Store
after_payload (MessagePayload.raw r) s = after_dup s.next (after_dup r s)
after_payload (MessagePayload.sync m) s = record s { valid = update s.valid m.valid false }
after_payload (MessagePayload.clone m) s = s

abbrev pub after : Message → Store → Store
after msg s = after_payload msg.payload s

-- The endpoint behind a message of `cap` bytes that left its queue: they are in use no longer.
abbrev pub given_back : Endpoint → List Message → ℕ → Endpoint
given_back ep rest cap = record ep {
  messages = record { vec = rest };
  memoryused = (ep.memoryused + usize_mod - cap) % usize_mod;
}

-- The queue behind the first message that is not stale, in one pass.
abbrev pub Received : List Message → Endpoint → Store → Endpoint × IoResult Message → Store → Type 0
Received [] ep s r t = (r ≡ (ep, err (record { code = no_messages }))) × (t ≡ s)
Received (m ∷ rest) ep s r t =
    ((is_stale m s ≡ true) × Received rest (given_back ep rest (Message.cap m s)) s r t)
    ⊎ ((is_stale m s ≡ false)
        × (r ≡ (given_back ep rest (Message.cap m s), ok (delivered m s)))
        × (t ≡ after m s))

abbrev Receives : List Message → Endpoint → Store → Type 0
Receives q ep s =
    (r : Endpoint × IoResult Message) × (t : Store) × (recv_loop q ep s ≡ done (r, t))
    × Received q ep s r t

copied_cap : (r : RawMessage) (s : Store) → ((after_dup r s).buffer s.next).cap ≡ (s.buffer r).cap
copied_cap r s = ap (λ i. i.cap) (update_self s.buffer s.next (copied (s.buffer r)))

take_first :
    (y : SyncMessage) (s : Store)
    → s.valid y.valid ≡ true
    → takeasvalid y s ≡ (true, record s { valid = update s.valid y.valid false })
unfolding takeasvalid
take_first y s e = rw e

take_again : (y : SyncMessage) (s : Store) → s.valid y.valid ≡ false → takeasvalid y s ≡ (false, s)
unfolding takeasvalid
take_again y s e = rw e

receive_head :
    (p : MessagePayload) (m : Message) (rest : List Message) (ep : Endpoint) (s : Store)
    → IsSound s
    → ((ep' : Endpoint) → Receives rest ep' s)
    → Receives (record m { payload = p } ∷ rest) ep s
unfolding recv_loop finish Message.dup_ifok Message.dup Message.cap
receive_head (MessagePayload.raw r) m rest ep s v later = (
  (
    released ep rest (s.buffer r).cap,
    ok (delivered (record m { payload = MessagePayload.raw r }) s),
  ),
  after_dup s.next (after_dup r s),
  rw (dup-done r s v, dup-done s.next (after_dup r s) (after_dup-IsSound r s v), copied_cap r s),
  inr (refl, refl, refl),
)
receive_head (MessagePayload.sync y) m rest ep s v later = elim (Bool-cases (s.valid y.valid)) [
  | inl e ↦ (_, _, rw (take_first y s e), inr (rw e, refl, refl))
  | inr e ↦
      let (r, t, run, got) = later (released ep rest (s.buffer y.payload).cap) in
      (r, t, rw (take_again y s e) run, inl (rw e, got))
]
receive_head (MessagePayload.clone y) m rest ep s v later = (_, _, refl, inr (refl, refl, refl))

recv_loop-Received : (q : List Message) (ep : Endpoint) (s : Store) → IsSound s → Receives q ep s
unfolding recv_loop
recv_loop-Received [] ep s v = (_, _, refl, (refl, refl))
recv_loop-Received (m ∷ rest) ep s v =
    receive_head m.payload m rest ep s v (λ ep'. recv_loop-Received rest ep' s v)

-- `recv` never panics on sound memory. It skips the sync messages at the front of the queue that
-- another receiver has taken, hands out the first other message, with raw bytes copied to a buffer of
-- its own, and fails exactly when nothing else is queued. Each message that leaves the queue gives
-- back its capacity.
pub recv-Received :
    (ep : Endpoint) (s : Store)
    → IsSound s
    → (r : Endpoint × IoResult Message) × (t : Store) × (recv ep s ≡ done (r, t))
      × Received ep.messages.vec ep s r t
unfolding recv
recv-Received ep s v = recv_loop-Received ep.messages.vec ep s v

pub after-IsSound : (p : MessagePayload) (s : Store) → IsSound s → IsSound (after_payload p s)
after-IsSound (MessagePayload.raw r) s v =
    after_dup-IsSound s.next (after_dup r s) (after_dup-IsSound r s v)
after-IsSound (MessagePayload.sync y) s v = record { buffers = v.buffers; sized = v.sized }
after-IsSound (MessagePayload.clone y) s v = v

pub Received-IsSound :
    (q : List Message) (ep : Endpoint) (s : Store) (r : Endpoint × IoResult Message) (t : Store)
    → IsSound s
    → Received q ep s r t
    → IsSound t
Received-IsSound [] ep s r t v (er, et) = rw et v
Received-IsSound (m ∷ rest) ep s r t v (inl (stale, got)) =
    Received-IsSound rest (released ep rest (Message.cap m s)) s r t v got
Received-IsSound (m ∷ rest) ep s r t v (inr (live, er, et)) = rw et (after-IsSound m.payload s v)

-- What `recv` returns and how many messages it leaves: one fewer or less, or none.
abbrev pub Takes : ℕ → Endpoint × IoResult Message → Type 0
Takes n (ep, ok msg) = length ep.messages.vec < n
Takes n (ep, err e) = (length ep.messages.vec ≡ 0) × (e ≡ record { code = no_messages })

pub Received-Takes :
    (q : List Message) (ep : Endpoint) (s : Store) (r : Endpoint × IoResult Message) (t : Store)
    → Received q ep s r t
    → ep.messages.vec ≡ q
    → (n : ℕ) → length q ≤ n
    → Takes n r
Received-Takes [] ep s r t (er, et) e n h = rw er (ap length e, refl)
Received-Takes (m ∷ rest) ep s r t (inl (stale, got)) e n h =
    Received-Takes rest (released ep rest (Message.cap m s)) s r t got refl n (omega arith)
Received-Takes (m ∷ rest) ep s r t (inr (live, er, et)) e n h = rw er (omega arith)

-- A call that returned, seen from its result.
pub recv-Takes :
    (ep ep' : Endpoint) (result : IoResult Message) (s t : Store)
    → IsSound s
    → recv ep s ≡ done ((ep', result), t)
    → IsSound t × Takes (length ep.messages.vec) (ep', result)
recv-Takes ep ep' result s t v e =
    let (r, u, run, got) = recv-Received ep s v in
    let both : r ≡ (ep', result) = cc in
    let also : u ≡ t = cc in
    (
      rw also at (Received-IsSound ep.messages.vec ep s r u v got),
      rw both at
          (Received-Takes ep.messages.vec ep s r u got refl (length ep.messages.vec) (omega arith)),
    )
