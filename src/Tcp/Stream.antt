-- ===== src/Tcp/Stream.antt =====
-- A whole stream of messages between the two sides of a bridge (src/tcp/mod.rs).
use water_rs.Prelude.{
  ℕ, zero, suc, ◌+◌, ◌*◌, ◌%◌, ◌<◌, ◌≡◌, refl, List, [], ◌∷◌, ◌++◌, Option, some, Outcome, done,
  panicked, undefined, arith, length,
}
use water_rs.RawMessage.{usize_mod}
use water_rs.RawMessage.Fill.{length-as_slice}
use water_rs.Store.{Store, IsSound, M, and_then, RawMessage, as_slice, len}
use water_rs.SyncMessage.{Typed}
use water_rs.Message
use water_rs.Message.{Message, MessagePayload}
use water_rs.Endpoint.{IoResult, ok}
use water_rs.Net.{Net, endpoint_sendx}
use water_rs.Tcp.{Machine, frame, tx_round, tx_loop, rx_loop}
use water_rs.Tcp.Wire.{be_bytes, read_be, read_be-be_bytes}
use water_rs.Tcp.Roundtrip.{IsSendable, arrived, filled, body, read_message-body}

-- A message and its raw payload.
abbrev pub Sent : Type 0
Sent = Message × RawMessage

-- What the endpoint of the link hands to `thread_tx`.
abbrev pub outbox : List Sent → List (IoResult Message)
outbox [] = []
outbox (m ∷ ms) = ok (record (m.0) { payload = MessagePayload.raw m.1 }) ∷ outbox ms

abbrev pub AllSendable : Machine → Store → List Sent → Type 0
AllSendable machine s [] = Unit {0}
AllSendable machine s (m ∷ ms) = IsSendable machine m.0 m.1 s × AllSendable machine s ms

-- The messages put on the net of the receiver, in order, each with its bytes in a new buffer.
abbrev pub deliver : List Sent → Store → Net → ℕ → M (Option Net)
deliver [] s net e t = done (some net, t)
deliver (m ∷ ms) s net e t =
    and_then (endpoint_sendx net e (arrived m.0 t) (filled t (as_slice m.1 s)))
      (λ (net', n). deliver ms s net' e)

abbrev wire : List Sent → Store → List ℕ
wire [] s = []
wire (m ∷ ms) s =
    be_bytes 8 (1 + 8 * 4 + length (as_slice m.1 s)) ++ body m.0 (as_slice m.1 s ++ wire ms s)

frame_length : (m : Sent) (s : Store) → IsSound s → length (as_slice m.1 s) ≡ len m.1 s
unfolding len as_slice
frame_length m s v = length-as_slice (s.buffer m.1) (v.buffers m.1)

frame-bytes :
    (machine : Machine) (m : Sent) (s : Store)
    → IsSound s
    → IsSendable machine m.0 m.1 s
    → ((1 + 8 * 4 + len m.1 s) % usize_mod ≡ 1 + 8 * 4 + length (as_slice m.1 s))
unfolding len as_slice
frame-bytes machine m s v h =
    omega (arith, h.countable, length-as_slice (s.buffer m.1) (v.buffers m.1))

tx_loop-wire :
    (machine : Machine) (terminate : Typed (Unit {0})) (ms : List Sent) (s : Store)
    → IsSound s
    → AllSendable machine s ms
    → tx_loop terminate (outbox ms) s ≡ done (wire ms s, s)
unfolding tx_loop tx_round frame Message.is_type Message.is_raw Message.get_raw be_bytes
tx_loop-wire machine terminate [] s v h = refl
tx_loop-wire machine terminate (m ∷ ms) s v h =
    rw (frame-bytes machine m s v h.0, tx_loop-wire machine terminate ms s v h.1)

and_then-same :
    {A B : Type 0} (o : Outcome (A × Store)) (f g : A → M B)
    → ((a : A) (t : Store) → f a t ≡ g a t)
    → and_then o f ≡ and_then o g
and_then-same (done (a, t)) f g h = h a t
and_then-same panicked f g h = refl
and_then-same undefined f g h = refl

rx_loop-wire :
    (machine : Machine) (ms : List Sent) (s : Store) (fuel : ℕ) (net : Net) (e : ℕ) (t : Store)
    → IsSound s
    → AllSendable machine s ms
    → length ms < fuel
    → rx_loop fuel machine (wire ms s) net e t ≡ deliver ms s net e t
unfolding rx_loop
rx_loop-wire machine ms s zero net e t v h k = absurd (omega arith)
rx_loop-wire machine [] s (suc fuel) net e t v h k = unfold read_be in refl
rx_loop-wire machine (m ∷ ms) s (suc fuel) net e t v h k =
    let f = as_slice m.1 s in
    let size = frame_length m s v in
    rw
      (
        rx_loop,
        read_be-be_bytes (1 + 8 * 4 + length f) (body m.0 (f ++ wire ms s))
            (omega (arith, size, h.0.countable)),
        read_message-body machine m.0 f (wire ms s) t h.0.addressed
            (omega (arith, size, h.0.some_byte)) (omega (arith, size, h.0.countable))
            (omega (arith, size, h.0.fits)),
      )
      (unfold Message.clone in
        (and_then-same (endpoint_sendx net e (arrived m.0 t) (filled t f)) _ _
          (λ (net', n) t'. rx_loop-wire machine ms s fuel net' e t' v h.1 (omega arith))))

-- Raw messages in sound memory that a bridge can carry, which are not empty, have 64-bit
-- addresses and fit the buffer of the receiver, arrive as they were sent, in order: from what
-- `thread_tx` writes for them, the loop of `thread_rx` puts each of them on its net, with its
-- addresses and its bytes in a new buffer, and then ends. As many rounds as messages and one more
-- are enough.
pub rx_loop-tx_loop :
    (machine : Machine) (terminate : Typed (Unit {0})) (ms : List Sent) (s : Store)
    → IsSound s
    → AllSendable machine s ms
    → (written : List ℕ) × (tx_loop terminate (outbox ms) s ≡ done (written, s))
      × ((fuel : ℕ) (net : Net) (e : ℕ) (t : Store)
          → length ms < fuel
          → rx_loop fuel machine written net e t ≡ deliver ms s net e t)
rx_loop-tx_loop machine terminate ms s v h = (
  wire ms s,
  tx_loop-wire machine terminate ms s v h,
  λ fuel net e t k. rx_loop-wire machine ms s fuel net e t v h k,
)
