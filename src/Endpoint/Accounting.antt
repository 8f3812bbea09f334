-- ===== src/Endpoint/Accounting.antt =====
-- The bytes that an endpoint counts as in use (`memoryused` of src/endpoint.rs) are those that its
-- queue holds.
use water_rs.Prelude.{
  ℕ, suc, ◌+◌, ◌%◌, ◌≤◌, ◌<◌, ◌≡◌, refl, inl, inr, Bool, List, [], ◌∷◌, ◌++◌, done, arith, ap, ◌∙◌,
}
use water_rs.RawMessage.{usize_mod}
use water_rs.Store.{Store, IsSound, RawMessage}
use water_rs.Store.Alias.{after_dup, copied, update_ne}
use water_rs.Message
use water_rs.Message.{Message, MessagePayload}
use water_rs.Endpoint.{Endpoint, IoResult, released, give, recv}
use water_rs.Endpoint.Give.{accepted, give_lem}
use water_rs.Endpoint.Receive.{Received, after_payload, recv-Received}

-- The buffer that a message refers to.
abbrev pub handle_payload : MessagePayload → RawMessage
handle_payload (MessagePayload.raw r) = r
handle_payload (MessagePayload.sync m) = m.payload
handle_payload (MessagePayload.clone m) = m.payload

abbrev pub handle : Message → RawMessage
handle msg = handle_payload msg.payload

abbrev pub total_cap : List Message → Store → ℕ
total_cap [] s = 0
total_cap (m ∷ ms) s = (s.buffer (handle m)).cap + total_cap ms s

abbrev pub AllLive : List Message → Store → Type 0
AllLive [] s = Unit {0}
AllLive (m ∷ ms) s = (handle m < s.next) × AllLive ms s

-- The count is the sum of the capacities in the queue, as a `usize`, and no buffer there is free.
pub record IsCounted (ep : Endpoint) (s : Store) : Type 0 where
  pub counted : ep.memoryused ≡ total_cap ep.messages.vec s % usize_mod
  pub live : AllLive ep.messages.vec s

cap-handle :
    (p : MessagePayload) (m : Message) (s : Store)
    → m.payload ≡ p
    → Message.cap m s ≡ (s.buffer (handle_payload p)).cap
unfolding Message.cap
cap-handle (MessagePayload.raw r) m s e = ground arith
cap-handle (MessagePayload.sync r) m s e = ground arith
cap-handle (MessagePayload.clone r) m s e = ground arith

total_cap-append :
    (ms : List Message) (m : Message) (s : Store)
    → total_cap (ms ++ (m ∷ [])) s ≡ total_cap ms s + (s.buffer (handle m)).cap
total_cap-append [] m s = omega arith
total_cap-append (x ∷ ms) m s = omega (arith, total_cap-append ms m s)

AllLive-append :
    (ms : List Message) (m : Message) (s : Store)
    → AllLive ms s
    → handle m < s.next
    → AllLive (ms ++ (m ∷ [])) s
AllLive-append [] m s h k = (k, tt)
AllLive-append (x ∷ ms) m s h k = (h.0, AllLive-append ms m s h.1 k)

-- Taking a message keeps the count.
pub accepted-IsCounted :
    (ep : Endpoint) (msg : Message) (s : Store)
    → IsCounted ep s
    → handle msg < s.next
    → IsCounted (accepted ep msg s) s
accepted-IsCounted ep msg s c k = record {
  counted =
      omega (
        arith,
        c.counted,
        cap-handle msg.payload msg s refl,
        total_cap-append ep.messages.vec msg s,
      );
  live = AllLive-append ep.messages.vec msg s c.live k;
}

-- Later stores keep the buffers of earlier ones.
pub record Extends (s t : Store) : Type 0 where
  pub grows : s.next ≤ t.next
  pub keeps : (p : RawMessage) → p < s.next → t.buffer p ≡ s.buffer p

total_cap-Extends :
    (ms : List Message) {s t : Store} → Extends s t → AllLive ms s → total_cap ms t ≡ total_cap ms s
total_cap-Extends [] x h = refl
total_cap-Extends (m ∷ ms) x h = rw (x.keeps (handle m) h.0, total_cap-Extends ms x h.1)

AllLive-Extends : (ms : List Message) {s t : Store} → Extends s t → AllLive ms s → AllLive ms t
AllLive-Extends [] x h = tt
AllLive-Extends (m ∷ ms) x h = (omega (arith, h.0, x.grows), AllLive-Extends ms x h.1)

pub IsCounted-Extends :
    {ep : Endpoint} {s t : Store} → Extends s t → IsCounted ep s → IsCounted ep t
IsCounted-Extends {ep} x c = record {
  counted = rw (total_cap-Extends ep.messages.vec x c.live) c.counted;
  live = AllLive-Extends ep.messages.vec x c.live;
}

pub after-Extends : (p : MessagePayload) (s : Store) → Extends s (after_payload p s)
after-Extends (MessagePayload.raw r) s = record {
  grows = omega arith;
  keeps = λ p h.
      update_ne (after_dup r s).buffer (suc s.next) p (copied ((after_dup r s).buffer s.next))
        (omega arith)
      ∙ update_ne s.buffer s.next p (copied (s.buffer r)) (omega arith);
}
after-Extends (MessagePayload.sync m) s = record { grows = omega arith; keeps = λ p h. refl }
after-Extends (MessagePayload.clone m) s = record { grows = omega arith; keeps = λ p h. refl }

pub released-IsCounted :
    (ep : Endpoint) (m : Message) (rest : List Message) (s : Store)
    → IsSound s
    → ep.messages.vec ≡ m ∷ rest
    → IsCounted ep s
    → IsCounted (released ep rest (Message.cap m s)) s
released-IsCounted ep m rest s v e c = record {
  counted = omega (
    arith,
    cap-handle m.payload m s refl,
    v.sized (handle m),
    c.counted,
    ap (λ q. total_cap q s) e,
  );
  live = (rw e at c.live).1;
}

Received-IsCounted :
    (q : List Message) (ep : Endpoint) (s : Store) (r : Endpoint × IoResult Message) (t : Store)
    → IsSound s
    → Received q ep s r t
    → ep.messages.vec ≡ q
    → IsCounted ep s
    → IsCounted r.0 t
Received-IsCounted [] ep s r t v (er, et) e c = rw (er, et) c
Received-IsCounted (m ∷ rest) ep s r t v (inl (stale, got)) e c =
    Received-IsCounted rest (released ep rest (Message.cap m s)) s r t v got refl
      (released-IsCounted ep m rest s v e c)
Received-IsCounted (m ∷ rest) ep s r t v (inr (live, er, et)) e c =
    rw (er, et)
      (IsCounted-Extends (after-Extends m.payload s) (released-IsCounted ep m rest s v e c))

-- In sound memory, `give` and `recv` keep the bytes in use equal to the capacities in the queue,
-- modulo 2 ^ 64, as long as what is queued and given refers to live memory. Neither panics.
pub give-recv-IsCounted :
    (ep : Endpoint) (s : Store)
    → IsSound s
    → IsCounted ep s
    → ((msg : Message)
        → handle msg < s.next
        → (ep' : Endpoint) × (b : Bool) × (give ep msg s ≡ done ((ep', b), s)) × IsCounted ep' s)
      × ((ep' : Endpoint) × (r : IoResult Message) × (t : Store) × (recv ep s ≡ done ((ep', r), t))
          × IsCounted ep' t)
give-recv-IsCounted ep s v c = (gives, receives)
  where
    gives :
        (msg : Message)
        → handle msg < s.next
        → (ep' : Endpoint) × (b : Bool) × (give ep msg s ≡ done ((ep', b), s)) × IsCounted ep' s
    gives msg k = elim (give_lem ep msg s) [
      | inl (f, room, e) ↦ (_, _, e, accepted-IsCounted ep msg s c k)
      | inr (no_way, e) ↦ (_, _, e, c)
    ]

    receives :
        (ep' : Endpoint) × (r : IoResult Message) × (t : Store) × (recv ep s ≡ done ((ep', r), t))
        × IsCounted ep' t
    receives =
        let (r, t, run, got) = recv-Received ep s v in
        (r.0, r.1, t, run, Received-IsCounted ep.messages.vec ep s r t v got refl c)
