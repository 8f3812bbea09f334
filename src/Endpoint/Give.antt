-- ===== src/Endpoint/Give.antt =====
-- `Endpoint::give` (src/endpoint.rs): which messages an endpoint takes, and what taking one does.
use water_rs.Prelude.{
  ◌+◌, ◌%◌, ◌<◌, ◌≡◌, refl, ◌⊎◌, ◌≢◌, inl, inr, true, false, [], ◌∷◌, ◌++◌, done, arith, length,
  length-append, if◌then◌else◌, Bool-cases,
}
use water_rs.RawMessage.{usize_mod}
use water_rs.Store.{Store}
use water_rs.SyncMessage.{internal_key}
use water_rs.Message
use water_rs.Message.{Message, MessagePayload}
use water_rs.Endpoint.{Endpoint, enqueue, misrouted, over_limit, give}

-- The endpoint with the message at the end of its queue, its bytes counted and one waiter woken.
abbrev pub accepted : Endpoint → Message → Store → Endpoint
accepted ep msg s = record ep {
  messages = record { vec = ep.messages.vec ++ (msg ∷ []) };
  memoryused = (ep.memoryused + Message.cap msg s) % usize_mod;
  notified = ep.notified + 1;
}

-- The destination names this endpoint.
pub record IsFor (ep : Endpoint) (msg : Message) : Type 0 where
  -- it does not come back to its sender, unless it may
  pub no_loop : (msg.canloop ≡ true) ⊎ (msg.srceid ≢ ep.eid) ⊎ (msg.srcsid ≢ ep.sid)
  -- 0 is every net, 1 the local net
  pub net :
      (msg.dstsid ≡ 0)
      ⊎ ((msg.dstsid ≡ 1) × (ep.sid ≡ ep.net_sid))
      ⊎ ((msg.dstsid ≢ 1) × (msg.dstsid ≡ ep.sid))
  -- 0 is every endpoint
  pub endpoint : (msg.dsteid ≡ 0) ⊎ (msg.dsteid ≡ ep.eid)

-- The queue is below its limits; 0 is no limit.
pub record HasRoom (ep : Endpoint) : Type 0 where
  pub pending : (ep.limitpending ≡ 0) ⊎ (length ep.messages.vec < ep.limitpending)
  pub memory : (ep.limitmemory ≡ 0) ⊎ (ep.memoryused < ep.limitmemory)

clone_same :
    (p : MessagePayload) (msg : Message) (s : Store)
    → msg.payload ≡ p
    → (if Message.is_sync msg then Message.internal_clone msg internal_key else Message.clone msg) s
      ≡ done (msg, s)
unfolding Message.is_sync Message.internal_clone Message.clone
clone_same (MessagePayload.raw r) msg s e = ground arith
clone_same (MessagePayload.sync r) msg s e = ground arith
clone_same (MessagePayload.clone r) msg s e = ground arith

enqueue-accepted :
    (ep : Endpoint) (msg : Message) (s : Store)
    → enqueue ep msg s ≡ done ((accepted ep msg s, true), s)
unfolding enqueue
enqueue-accepted ep msg s = rw (clone_same msg.payload msg s refl)

not_misrouted : (ep : Endpoint) (msg : Message) → misrouted ep msg ≡ false → IsFor ep msg
unfolding misrouted
not_misrouted ep msg h = ground arith

misrouted_not : (ep : Endpoint) (msg : Message) → misrouted ep msg ≡ true → ¬ IsFor ep msg
unfolding misrouted
misrouted_not ep msg h f = ground arith

not_over : (ep : Endpoint) → over_limit ep ≡ false → HasRoom ep
unfolding over_limit
not_over ep h = ground arith

over_not : (ep : Endpoint) → over_limit ep ≡ true → ¬ HasRoom ep
unfolding over_limit
over_not ep h f = ground arith

-- `give` never panics and never touches the memory of messages. It takes a message exactly when the
-- destination names the endpoint and the queue is below both limits: then the message stands at the
-- end of the queue, its capacity is added to the bytes in use and one waiter is notified. Otherwise
-- it returns `false` and changes nothing. The limit on memory is compared with the bytes in use before
-- the message, whose own capacity it does not bound.
pub give_lem :
    (ep : Endpoint) (msg : Message) (s : Store)
    → (IsFor ep msg × HasRoom ep × (give ep msg s ≡ done ((accepted ep msg s, true), s)))
      ⊎ (¬ (IsFor ep msg × HasRoom ep) × (give ep msg s ≡ done ((ep, false), s)))
unfolding give
give_lem ep msg s = elim (Bool-cases (misrouted ep msg)) [
  | inl e ↦ inr (λ (f, r). misrouted_not ep msg e f, rw e)
  | inr e ↦ elim (Bool-cases (over_limit ep)) [
    | inl o ↦ inr (λ (f, r). over_not ep o r, rw (e, o))
    | inr o ↦ inl (not_misrouted ep msg e, not_over ep o, rw (e, o, enqueue-accepted ep msg s))
  ]
]

-- The limit on memory does not bound what the messages in the queue consume. Where the bytes in use are
-- below a limit and the sum fits a `usize`, a message for the endpoint that alone brings them above the
-- limit is taken, as long as the number of messages is below its limit, and they are above it behind.
pub give-passes_limit :
    (ep : Endpoint) (msg : Message) (s : Store)
    → IsFor ep msg
    → (ep.limitpending ≡ 0) ⊎ (length ep.messages.vec < ep.limitpending)
    → ep.memoryused < ep.limitmemory
    → ep.limitmemory < ep.memoryused + Message.cap msg s
    → ep.memoryused + Message.cap msg s < usize_mod
    → (ep' : Endpoint) × (give ep msg s ≡ done ((ep', true), s))
      × (length ep'.messages.vec ≡ length ep.messages.vec + 1)
      × (ep'.memoryused ≡ ep.memoryused + Message.cap msg s)
      × (ep'.limitmemory < ep'.memoryused)
give-passes_limit ep msg s f pending below above fits = elim (give_lem ep msg s) [
  | inl (f', room, e) ↦ (
    accepted ep msg s,
    e,
    length-append ep.messages.vec (msg ∷ []),
    omega (arith, fits),
    omega (arith, above, fits),
  )
  | inr (no_way, e) ↦ absurd (no_way (f, record { pending = pending; memory = inr below }))
]
