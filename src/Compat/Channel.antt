-- ===== src/Compat/Channel.antt =====
-- `channel` (src/compat.rs) against a list: whatever is sent and received, the answers are those of a
-- first-in first-out queue.
use water_rs.Prelude.{ℕ, ◌<◌, ◌≡◌, refl, List, [], ◌∷◌, ◌++◌, Option, some, done}
use water_rs.RawMessage.{usize_mod}
use water_rs.Store.{Store, IsSound, M, pure, ◌>>=◌}
use water_rs.SyncMessage.{Typed}
use water_rs.Message.{Message}
use water_rs.Endpoint
use water_rs.Endpoint.{Endpoint, IoResult, no_messages}
use water_rs.Endpoint.Receive.{recv-Received, Received}
use water_rs.Net
use water_rs.Net.{Net, set_cell}
use water_rs.Compat.{Result, ok, err, TryRecvError, empty, channel, send, try_recv}
use water_rs.Compat.Carries.{AllCarry}
use water_rs.Compat.Fifo.{Holds, channel-Holds, send-Holds}
use water_rs.Compat.Take.{try_recv-Holds}

-- What the users of a channel do.
pub data Op (T : Type 0) : Type 0 where
  put : T → Op T
  take : Op T

-- The answers that a first-in first-out queue gives.
unfoldable pub fifo : {T : Type 0} → List (Op T) → List T → List (Option (Result T TryRecvError))
fifo [] queue = []
fifo (put t ∷ ops) queue = fifo ops (queue ++ (t ∷ []))
fifo (take ∷ ops) [] = some (err empty) ∷ fifo ops []
fifo (take ∷ ops) (t ∷ queue) = some (ok t) ∷ fifo ops queue

module _ {T : Type 0} (ty : Typed T) where
  -- The calls on the two ends of a channel, and the answers of `try_recv`.
  unfoldable pub run : ℕ → ℕ → List (Op T) → Net → M (Net × List (Option (Result T TryRecvError)))
  run sender receiver [] net = pure (net, [])
  run sender receiver (put t ∷ ops) net = do
    net' ← send ty net sender t
    run sender receiver ops net'
  run sender receiver (take ∷ ops) net = do
    (net', answer) ← try_recv ty net receiver
    (net'', answers) ← run sender receiver ops net'
    pure (net'', answer ∷ answers)

  -- `try_recv` fails, and the channel stays empty.
  abbrev Empty : Net → Store → Type 0
  Empty net s =
      (net' : Net) × (try_recv ty net 1 s ≡ done ((net', some (err empty)), s)) × Holds ty net' s []

  receive_none :
      (q : List Message) (net : Net) (s : Store) (r : Endpoint × IoResult Message) (s' : Store)
      → Holds ty net s []
      → AllCarry ty s 0 q []
      → Received q (net.cell 1) s r s'
      → Endpoint.recv (net.cell 1) s ≡ done (r, s')
      → Empty net s
  unfolding try_recv Net.endpoint_recv
  receive_none [] net s r s' h a (er, es) e =
      let none_left : Endpoint.recv (net.cell 1) s
          ≡ done ((net.cell 1, IoResult.err (record { code = no_messages })), s) =
        cc in
      (
        set_cell net 1 (net.cell 1),
        rw none_left,
        record {
          sound = h.sound;
          listed = h.listed;
          apart = h.apart;
          local_net = h.local_net;
          limitpending = h.limitpending;
          limitmemory = h.limitmemory;
          held = h.held;
          queued = h.queued;
        },
      )
  receive_none (m ∷ q) net s r s' h a got e = absurd a

  try_recv-Empty : (net : Net) (s : Store) → Holds ty net s [] → Empty net s
  try_recv-Empty net s h =
      let (r, s', e, got) = recv-Received (net.cell 1) s h.sound in
      receive_none (net.cell 1).messages.vec net s r s' h h.queued got e

  run_on :
      (small : ty.size_of < usize_mod) (ops : List (Op T)) (net : Net) (s : Store) (ts : List T)
      → Holds ty net s ts
      → (net' : Net) × (s' : Store) × (run 0 1 ops net s ≡ done ((net', fifo ops ts), s'))
  unfolding run fifo
  run_on small [] net s ts h = (net, s, refl)
  run_on small (put t ∷ ops) net s ts h =
      let (net', s', sent, h') = send-Holds ty net s ts h t small in
      let (net'', s'', rest) = run_on small ops net' s' (ts ++ (t ∷ [])) h' in
      (net'', s'', rw (sent, rest))
  run_on small (take ∷ ops) net s [] h =
      let (net', got, h') = try_recv-Empty net s h in
      let (net'', s'', rest) = run_on small ops net' s [] h' in (net'', s'', rw (got, rest))
  run_on small (take ∷ ops) net s (t ∷ ts) h =
      let (net', s', got, h') = try_recv-Holds ty net s t ts h in
      let (net'', s'', rest) = run_on small ops net' s' ts h' in (net'', s'', rw (got, rest))

  -- A new channel on sound memory is a first-in first-out queue: for values whose size fits `usize`,
  -- no sequence of `send` on its first end and `try_recv` on its second panics or is left waiting, and
  -- the answers are those that a list gives to which every `send` appends its value and from which
  -- every `try_recv` takes the first, `Empty` when there is none.
  pub run-fifo :
      (ops : List (Op T)) (cell : ℕ → Endpoint) (s : Store)
      → ty.size_of < usize_mod
      → IsSound s
      → let (net, sender, receiver) = channel cell in
        (net' : Net) × (s' : Store) × (run sender receiver ops net s
          ≡ done ((net', fifo ops []), s'))
  unfolding channel Net.enrol
  run-fifo ops cell s small v = run_on small ops (channel cell).0 s [] (channel-Holds ty cell s v)
