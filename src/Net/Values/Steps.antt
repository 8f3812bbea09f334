-- ===== src/Net/Values/Steps.antt =====
-- What an endpoint (src/endpoint.rs) takes and hands out keeps its queue readable and counted.
use water_rs.Prelude.{◌<◌, ◌≡◌, refl, inl, inr, Bool, List, [], ◌∷◌, ◌++◌, done, arith}
use water_rs.Store.{Store, IsSound}
use water_rs.Message
use water_rs.Message.{Message, MessagePayload}
use water_rs.Endpoint.{Endpoint, IoResult, released, give}
use water_rs.Endpoint.Give.{give_lem}
use water_rs.Endpoint.Receive.{Received, after_payload, delivered_payload, after-IsSound}
use water_rs.Endpoint.Accounting.{
  IsCounted, Extends, handle, accepted-IsCounted, released-IsCounted, IsCounted-Extends,
  after-Extends,
}
use water_rs.Net.Values.{Types, Trait, result_list, IsReadablePayload, IsReadable, AllReadable}

module _ (types : Types) (P : Trait types) where
  payload-handle :
      (p : MessagePayload) (m : Message) (s : Store)
      → m.payload ≡ p
      → IsReadablePayload types P p s
      → handle m < s.next
  payload-handle (MessagePayload.raw r) m s e h = rw e h
  payload-handle (MessagePayload.sync y) m s e h = rw e h.0
  payload-handle (MessagePayload.clone y) m s e h = rw e h.0

  pub IsReadable-Extends :
      (p : MessagePayload) {s t : Store}
      → Extends s t
      → IsReadablePayload types P p s
      → IsReadablePayload types P p t
  IsReadable-Extends (MessagePayload.raw r) x h = omega (arith, h, x.grows)
  IsReadable-Extends (MessagePayload.sync y) x (live, (t, e, has)) =
      (omega (arith, live, x.grows), (t, rw (x.keeps y.payload live) e, has))
  IsReadable-Extends (MessagePayload.clone y) x (live, (t, e, has)) =
      (omega (arith, live, x.grows), (t, rw (x.keeps y.payload live) e, has))

  pub AllReadable-Extends :
      (ms : List Message) {s t : Store}
      → Extends s t
      → AllReadable types P ms s
      → AllReadable types P ms t
  AllReadable-Extends [] x h = tt
  AllReadable-Extends (m ∷ ms) x h =
      (IsReadable-Extends m.payload x h.0, AllReadable-Extends ms x h.1)

  pub AllReadable-append :
      (ms ns : List Message) (s : Store)
      → AllReadable types P ms s
      → AllReadable types P ns s
      → AllReadable types P (ms ++ ns) s
  AllReadable-append [] ns s h k = k
  AllReadable-append (m ∷ ms) ns s h k = (h.0, AllReadable-append ms ns s h.1 k)

  -- An endpoint whose messages are readable and whose bytes are counted.
  pub record IsFair (ep : Endpoint) (s : Store) : Type 0 where
    pub count : IsCounted ep s
    pub readable : AllReadable types P ep.messages.vec s

  pub IsFair-Extends : {ep : Endpoint} {s t : Store} → Extends s t → IsFair ep s → IsFair ep t
  IsFair-Extends {ep} x f = record {
    count = IsCounted-Extends x f.count;
    readable = AllReadable-Extends ep.messages.vec x f.readable;
  }

  pub give-IsFair :
      (ep : Endpoint) (msg : Message) (s : Store)
      → IsFair ep s
      → IsReadable types P msg s
      → (ep' : Endpoint) × (b : Bool) × (give ep msg s ≡ done ((ep', b), s)) × IsFair ep' s
  give-IsFair ep msg s f h = elim (give_lem ep msg s) [
    | inl (for, room, e) ↦ (
      _,
      _,
      e,
      record {
        count = accepted-IsCounted ep msg s f.count (payload-handle msg.payload msg s refl h);
        readable = AllReadable-append ep.messages.vec (msg ∷ []) s f.readable (h, tt);
      },
    )
    | inr (no_way, e) ↦ (_, _, e, f)
  ]

  released-IsFair :
      (ep : Endpoint) (m : Message) (rest : List Message) (s : Store)
      → IsSound s
      → ep.messages.vec ≡ m ∷ rest
      → IsFair ep s
      → IsFair (released ep rest (Message.cap m s)) s
  released-IsFair ep m rest s v e f = record {
    count = released-IsCounted ep m rest s v e f.count;
    readable = (rw e at f.readable).1;
  }

  delivered-IsReadable :
      (p : MessagePayload) (s : Store)
      → IsReadablePayload types P p s
      → IsReadablePayload types P (delivered_payload p s) (after_payload p s)
  delivered-IsReadable (MessagePayload.raw r) s h = omega arith
  delivered-IsReadable (MessagePayload.sync y) s h = h
  delivered-IsReadable (MessagePayload.clone y) s h = h

  pub Received-IsFair :
      (q : List Message) (ep : Endpoint) (s : Store) (r : Endpoint × IoResult Message) (t : Store)
      → IsSound s
      → Received q ep s r t
      → ep.messages.vec ≡ q
      → IsFair ep s
      → IsSound t × Extends s t × IsFair r.0 t × AllReadable types P (result_list r.1) t
  Received-IsFair [] ep s r t v (er, et) e f =
      rw (er, et) (v, record { grows = omega arith; keeps = λ p h. refl }, f, tt)
  Received-IsFair (m ∷ rest) ep s r t v (inl (stale, got)) e f =
      Received-IsFair rest (released ep rest (Message.cap m s)) s r t v got refl
        (released-IsFair ep m rest s v e f)
  Received-IsFair (m ∷ rest) ep s r t v (inr (live, er, et)) e f =
      rw (er, et)
        (
          after-IsSound m.payload s v,
          after-Extends m.payload s,
          IsFair-Extends (after-Extends m.payload s) (released-IsFair ep m rest s v e f),
          (delivered-IsReadable m.payload s (rw e at f.readable).0, tt),
        )
