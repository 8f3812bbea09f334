-- ===== src/Tcp/Hops.antt =====
-- The single steps of a raw message on its way over a bridge: src/net.rs, src/endpoint.rs and
-- src/tcp/mod.rs.
use water_rs.Prelude.{
  ℕ, suc, ◌≡◌, ◌≢◌, refl, ap, ◌∙◌, inl, inr, false, List, [], ◌∷◌, ◌++◌, some, done, arith, length,
}
use water_rs.RawMessage.{IsValid, as_slice as bytes_of}
use water_rs.RawMessage.Access.{as_slice_full}
use water_rs.RawMessage.Fill.{length-as_slice}
use water_rs.Store.{Store, IsSound, RawMessage, len, as_slice}
use water_rs.Store.Alias.{after_dup, copied, dup-done, update_self, update-IsSound}
use water_rs.SyncMessage.{Typed}
use water_rs.Message
use water_rs.Message.{Message, MessagePayload}
use water_rs.Endpoint.{Endpoint, IoResult, ok}
use water_rs.Endpoint.Give.{IsFor, HasRoom}
use water_rs.Endpoint.Receive.{Received, recv-Received, after_payload}
use water_rs.Net.{Net, endpoint_sendx, endpoint_recv, send, set_cell, occurrences}
use water_rs.Net.Handles.{Distinct}
use water_rs.Net.Listed.{send_internal-arrives}
use water_rs.Tcp.{Machine, tx_loop, rx_loop}
use water_rs.Tcp.Roundtrip.{IsSendable, filled}
use water_rs.Tcp.Stream.{rx_loop-tx_loop}

-- What the sender's net offers: the message with the address of the endpoint that sends it.
abbrev pub addressed : Net → ℕ → Message → Message
addressed net e msg = record msg { srcsid = (net.cell e).sid; srceid = (net.cell e).eid }

abbrev pub with_raw : Message → RawMessage → Message
with_raw msg r = record msg { payload = MessagePayload.raw r }

IsFor-with_raw :
    (ep : Endpoint) (msg : Message) (r : RawMessage) → IsFor ep msg → IsFor ep (with_raw msg r)
IsFor-with_raw ep msg r f = record { no_loop = f.no_loop; net = f.net; endpoint = f.endpoint }

-- A copy has the whole buffer.
pub copy_bytes : (s : Store) (r : RawMessage) → (after_dup r s).buffer s.next ≡ copied (s.buffer r)
copy_bytes s r = update_self s.buffer s.next (copied (s.buffer r))

pub copied-as_slice :
    (s : Store) (r : RawMessage) → IsSound s → bytes_of (copied (s.buffer r)) ≡ (s.buffer r).buf
copied-as_slice s r v =
    as_slice_full (copied (s.buffer r)) (record { full = (v.buffers r).full; within = omega arith })

-- What a raw message that was sent leaves at an endpoint that it is for and that has room.
pub sent_to :
    (net : Net) (msg : Message) (r : RawMessage) (d : ℕ) (s : Store)
    → IsSound s
    → Distinct net.endpoints
    → occurrences d net.endpoints ≢ 0
    → IsFor (net.cell d) msg
    → HasRoom (net.cell d)
    → (net' : Net) × (n : ℕ) × (send net (with_raw msg r) s ≡ done ((net', n), after_dup r s))
      × ((net'.cell d).messages.vec ≡ (net.cell d).messages.vec ++ (with_raw msg s.next ∷ []))
unfolding send Message.is_raw Message.dup
sent_to net msg r d s v distinct listed for room =
    let (net', n, run, queued) =
      send_internal-arrives net (with_raw msg s.next) (after_dup r s) d distinct listed
        (IsFor-with_raw (net.cell d) msg s.next for) room in
    (net', n, rw (dup-done r s v) run, queued)

-- The bridge's endpoint takes the message out of its queue.
Received-one :
    (q : List Message) (ep : Endpoint) (msg : Message) (r : RawMessage) (s t : Store)
    (res : Endpoint × IoResult Message)
    → q ≡ with_raw msg r ∷ []
    → Received q ep s res t
    → (res.1 ≡ ok (with_raw msg (suc s.next))) × (t ≡ after_payload (MessagePayload.raw r) s)
Received-one q ep msg r s t res e got = elim (rw e at got) [
  | inl (stale, more) ↦ absurd cc
  | inr (live, er, et) ↦ (ap (λ (x : Endpoint × IoResult Message). x.1) er, et)
]

pub taken :
    (net : Net) (b : ℕ) (msg : Message) (r : RawMessage) (s : Store)
    → IsSound s
    → (net.cell b).messages.vec ≡ with_raw msg r ∷ []
    → (net' : Net) × (endpoint_recv net b s
        ≡ done ((net', ok (with_raw msg (suc s.next))), after_payload (MessagePayload.raw r) s))
unfolding endpoint_recv
taken net b msg r s v e =
    let (res, t, run, got) = recv-Received (net.cell b) s v in
    let (er, et) = Received-one (net.cell b).messages.vec (net.cell b) msg r s t res e got in
    (set_cell net b res.0, rw run (rw (er, et) refl))

-- The bytes of what `recv` hands out of a raw message.
pub taken_bytes :
    (r : RawMessage) (s : Store)
    → IsSound s
    → ((after_payload (MessagePayload.raw r) s).buffer (suc s.next) ≡ copied (s.buffer r))
taken_bytes r s v = copy_bytes (after_dup r s) s.next ∙ ap copied (copy_bytes s r)

-- The second half.
pub arrives :
    (machine : Machine) (terminate : Typed (Unit {0})) (other : Net) (d be : ℕ) (msg : Message)
    (h : RawMessage) (s t : Store)
    → IsSound s
    → IsSound t
    → IsSendable machine msg h s
    → Distinct other.endpoints
    → occurrences d other.endpoints ≢ 0
    → IsFor (other.cell d) (record msg { canloop = false })
    → HasRoom (other.cell d)
    → (written : List ℕ) × (tx_loop terminate (ok (with_raw msg h) ∷ []) s ≡ done (written, s))
      × ((other' : Net) × (t' : Store) × (copy : RawMessage) × (rx_loop 2 machine written other be t
            ≡ done (some other', t'))
          × ((other'.cell d).messages.vec
              ≡ (other.cell d).messages.vec
                ++ (with_raw (record msg { canloop = false }) copy ∷ []))
          × (as_slice copy t' ≡ as_slice h s))
unfolding endpoint_sendx as_slice len
arrives machine terminate other d be msg h s t v w ready distinct listed for room =
    let f = as_slice h s in
    let total : length f ≡ (s.buffer h).len = length-as_slice (s.buffer h) (v.buffers h) in
    let full : IsValid (record { len = length f; cap = length f; buf = f }) = record {
      full = refl;
      within = omega arith;
    } in
    let sound = update-IsSound t t.next (suc t.next) _ w full (omega (arith, ready.countable)) in
    let (written, wrote, read) =
      rx_loop-tx_loop machine terminate ((msg, h) ∷ []) s v (ready, tt) in
    let (other', n, put, queued) =
      sent_to other (record msg { canloop = false }) t.next d (filled t f) sound distinct listed for
        room in
    (
      written,
      wrote,
      (
        other',
        after_dup t.next (filled t f),
        suc t.next,
        read 2 other be t (omega arith) ∙ rw put refl,
        queued,
        ap bytes_of (
              copy_bytes (filled t f) t.next
              ∙ ap copied (
                  update_self t.buffer t.next (record { len = length f; cap = length f; buf = f })))
            ∙ as_slice_full _ full,
      ),
    )
