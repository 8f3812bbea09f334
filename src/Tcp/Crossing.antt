-- ===== src/Tcp/Crossing.antt =====
-- A raw message on its way from an endpoint of one net over a bridge to an endpoint of another net:
-- src/net.rs and src/endpoint.rs on both sides, and src/tcp/mod.rs in between.
use water_rs.Prelude.{
  ℕ, suc, ◌+◌, ◌*◌, ◌≤◌, ◌<◌, ◌≡◌, ◌≢◌, ap, ◌∙◌, false, List, [], ◌∷◌, ◌++◌, some, done,
}
use water_rs.RawMessage.{usize_mod, Internal, as_slice as bytes_of}
use water_rs.Store.{Store, IsSound, RawMessage, len, as_slice}
use water_rs.Store.Alias.{after_dup, copied, after_dup-IsSound}
use water_rs.SyncMessage.{Typed}
use water_rs.Message.{Message, MessagePayload}
use water_rs.Endpoint.{ok}
use water_rs.Endpoint.Give.{IsFor, HasRoom}
use water_rs.Endpoint.Receive.{after_payload, after-IsSound}
use water_rs.Net.{Net, endpoint_send, endpoint_recv, sendas, occurrences}
use water_rs.Net.Handles.{Distinct}
use water_rs.Tcp.{Machine, tx_loop, rx_loop}
use water_rs.Tcp.Roundtrip.{IsAddressed}
use water_rs.Tcp.Hops.{
  addressed, with_raw, copy_bytes, copied-as_slice, sent_to, taken, taken_bytes, arrives,
}

-- A bridge carries a raw message from one net to another. An endpoint `e` sends it on a net that lists
-- no endpoint twice; the endpoint `b` of the bridge, to which it may go and which has room, has nothing
-- else in its queue. The copy, which is not empty, has 64-bit addresses and fits the buffer on the
-- other side, is written to the stream, and read from it onto a second net in other sound memory. There
-- every endpoint `d` that it is for and that has room has it at the end of its queue: with the address
-- of the sender, the bytes of the whole buffer that was sent, and not allowed to loop. Nothing panics.
pub send-crosses :
    (machine : Machine) (terminate : Typed (Unit {0})) (net other : Net) (e b d be : ℕ)
    (msg : Message) (r : RawMessage) (s t : Store)
    → IsSound s
    → IsSound t
    → Distinct net.endpoints
    → occurrences b net.endpoints ≢ 0
    → (net.cell b).messages.vec ≡ []
    → IsFor (net.cell b) (addressed net e msg)
    → HasRoom (net.cell b)
    → IsAddressed (addressed net e msg)
    → 0 < (s.buffer r).cap
    → 1 + 8 * 4 + (s.buffer r).cap < usize_mod
    → (s.buffer r).cap ≤ machine.limit
    → Distinct other.endpoints
    → occurrences d other.endpoints ≢ 0
    → IsFor (other.cell d) (record (addressed net e msg) { canloop = false })
    → HasRoom (other.cell d)
    → (net1 net2 other' : Net) × (n : ℕ) × (s1 s2 t' : Store) × (h copy : RawMessage)
      × (written : List ℕ) × (endpoint_send net e (with_raw msg r) s ≡ done ((net1, n), s1))
      × (endpoint_recv net1 b s1 ≡ done ((net2, ok (with_raw (addressed net e msg) h)), s2))
      × (tx_loop terminate (ok (with_raw (addressed net e msg) h) ∷ []) s2 ≡ done (written, s2))
      × (rx_loop 2 machine written other be t ≡ done (some other', t'))
      × ((other'.cell d).messages.vec
          ≡ (other.cell d).messages.vec
            ++ (with_raw (record (addressed net e msg) { canloop = false }) copy ∷ []))
      × (as_slice copy t' ≡ (s.buffer r).buf)
unfolding endpoint_send sendas len as_slice
send-crosses machine terminate net other e b d be msg r s t v w distinct listed empty for room addr
      some_byte countable fits distinct' listed' for' room' =
    let m = addressed net e msg in
    let (net1, n, sent, queued) = sent_to net m r b s v distinct listed for room in
    let s1 = after_dup r s in
    let v1 : IsSound s1 = after_dup-IsSound r s v in
    let (net2, took) =
      taken net1 b m s.next s1 v1 (queued ∙ ap (λ q. q ++ (with_raw m s.next ∷ [])) empty) in
    let s2 = after_payload (MessagePayload.raw s.next) s1 in
    let h = suc s1.next in
    let same : s2.buffer h ≡ copied (s.buffer r) =
      taken_bytes s.next s1 v1 ∙ ap copied (copy_bytes s r) in
    let size : len h s2 ≡ (s.buffer r).cap = ap (λ (i : Internal). i.len) same in
    let (written, wrote, (other', t', copy, read, there, bytes)) =
      arrives machine terminate other d be m h s2 t
        (after-IsSound (MessagePayload.raw s.next) s1 v1) w
        (record {
          addressed = addr;
          some_byte = rw size some_byte;
          countable = rw size countable;
          fits = rw size fits;
        })
        distinct' listed' for' room' in
    (
      net1,
      net2,
      other',
      n,
      s1,
      s2,
      t',
      h,
      copy,
      written,
      sent,
      took,
      wrote,
      read,
      there,
      bytes ∙ ap bytes_of same ∙ copied-as_slice s r v,
    )
