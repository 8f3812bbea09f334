-- ===== src/Tcp.antt =====
-- src/tcp/mod.rs: the two threads of a bridge, which carry raw messages between nets. A stream is the
-- list of the bytes that are still to come; it ends where the other side closes it.
pub mod Wire
pub mod Link
pub mod Listener
pub mod Hops
pub mod Crossing
pub mod Connector
pub mod Roundtrip
pub mod Ends
pub mod Stream
mod Tests
use water_rs.Prelude.{
  ℕ, zero, suc, ◌+◌, ◌*◌, ◌-◌, ◌%◌, Bool, true, false, not, List, [], ◌∷◌, ◌++◌, Option, none, some,
  done, take, drop, length, ltb, ◌==◌, if◌then◌else◌,
}
use water_rs.RawMessage.{usize_mod}
use water_rs.RawMessage.Memory.{allocate}
use water_rs.Store.{
  M, pure, panic, ◌>>=◌, ◌>>◌, RawMessage, len, as_slice, new as new_rawmessage, write_from_slice,
}
use water_rs.SyncMessage.{Typed}
use water_rs.Message
use water_rs.Message.{Message}
use water_rs.Endpoint
use water_rs.Endpoint.{IoResult, err, ok}
use water_rs.Net.{Net, set_cell, endpoint_sendx}
use Listener
use Listener.{TcpBridgeListener}
use Connector
use Connector.{TcpBridgeConnector}
use Wire.{be_bytes, read_be}

-- What `thread_tx` writes for a message with raw payload `r`.
unfoldable pub frame : Message → RawMessage → M (List ℕ)
unfolding be_bytes len as_slice
frame msg r s = done (
  be_bytes 8 ((1 + 8 * 4 + len r s) % usize_mod)
      ++ (1
          ∷ (be_bytes 8 msg.srcsid
              ++ (be_bytes 8 msg.srceid
                  ++ (be_bytes 8 msg.dstsid ++ (be_bytes 8 msg.dsteid ++ as_slice r s))))),
  s,
)

-- One round of the loop of `thread_tx`, from what `recvorblock` returned: the bytes that are written,
-- or `none` where the thread closes the stream and returns. `terminate` is `TerminateMessage`.
unfoldable pub tx_round : Typed (Unit {0}) → IoResult Message → M (Option (List ℕ))
unfolding frame Message.is_type Message.is_raw Message.get_raw
tx_round terminate (err e) = pure (some [])
tx_round terminate (ok msg) =
    if Message.is_type terminate msg
    then pure none
    else if not (Message.is_raw msg)
    then pure (some [])
    else do r ← Message.get_raw msg; bytes ← frame msg r; pure (some bytes)

-- The loop over what `recvorblock` returns in turn; at the end of the list the thread waits.
unfoldable pub tx_loop : Typed (Unit {0}) → List (IoResult Message) → M (List ℕ)
unfolding tx_round
tx_loop terminate [] = pure []
tx_loop terminate (result ∷ results) = do
  bytes ← tx_round terminate result
  elim bytes [
    | none ↦ pure []
    | some written ↦ (do later ← tx_loop terminate results; pure (written ++ later))
  ]

unfoldable pub thread_tx : Typed (Unit {0}) → ℕ → List (IoResult Message) → M (List ℕ)
unfolding tx_loop
thread_tx terminate sid results = do
  later ← tx_loop terminate results
  pure (be_bytes 8 sid ++ later)

unfoldable pub getok {ℓ} : {A : Type ℓ} → Option A → M A
getok (some r) = pure r
getok none = panic

-- The machine of the receiver: the largest buffer that `Vec::with_capacity` returns, and what stands
-- in it.
pub record Machine : Type 0 where
  pub limit : ℕ
  pub mem : ℕ → ℕ

-- `read_at_least` into a buffer of `n` bytes; its error is ignored, so that a stream that is too
-- short leaves the end of the buffer as it was.
unfoldable pub read_at_least : Machine → ℕ → List ℕ → List ℕ
read_at_least machine n stream =
    let got = take n stream in got ++ allocate machine.mem (length got) (n - length got)

-- `Vec::with_capacity` of more bytes than there are.
unfoldable pub checked_capacity : Machine → ℕ → M (Unit {0})
checked_capacity machine size = if ltb machine.limit size then panic else pure tt

unfoldable pub checked_type : ℕ → M (Unit {0})
checked_type msg_type = if msg_type == 1 then pure tt else panic

-- The rest of a round of `thread_rx`, behind the size of the message: the message and what is left of
-- the stream.
unfoldable pub read_message : Machine → ℕ → List ℕ → M (Message × List ℕ)
unfolding getok read_at_least checked_capacity checked_type Message.new_fromraw new_rawmessage
    write_from_slice
read_message machine msgsize stream = do
  (msg_type, s1) ← getok (read_be 1 0 stream)
  (msg_srcsid, s2) ← getok (read_be 8 0 s1)
  (msg_srceid, s3) ← getok (read_be 8 0 s2)
  (msg_dstsid, s4) ← getok (read_be 8 0 s3)
  (msg_dsteid, s5) ← getok (read_be 8 0 s4)
  let size = (msgsize + usize_mod - (1 + 8 * 4)) % usize_mod
  checked_capacity machine size
  let vbuf = read_at_least machine size s5
  checked_type msg_type
  rmsg ← new_rawmessage size
  write_from_slice rmsg 0 vbuf
  pure (
    record (Message.new_fromraw rmsg) {
      dstsid = msg_dstsid;
      dsteid = msg_dsteid;
      srcsid = msg_srcsid;
      srceid = msg_srceid;
    },
    drop size s5,
  )

-- The loop of `thread_rx`, which ends where no further size is read; `none` if `fuel` rounds do not
-- reach that.
unfoldable pub rx_loop : ℕ → Machine → List ℕ → Net → ℕ → M (Option Net)
unfolding read_message Message.clone endpoint_sendx
rx_loop zero machine stream net e = pure none
rx_loop (suc fuel) machine stream net e = elim (read_be 8 0 stream) [
  | none ↦ pure (some net)
  | some (msgsize, rest) ↦ do
    (msg, rest') ← read_message machine msgsize rest
    given ← Message.clone msg
    (net', n) ← endpoint_sendx net e given
    rx_loop fuel machine rest' net' e
]

-- The bridge that the thread serves.
pub data Which : Type 0 where
  listener : TcpBridgeListener → Which
  connector : TcpBridgeConnector → Which

-- The other side has sent its address.
unfoldable pub negotiated : Which → Which
unfolding Listener.negcountinc Connector.setconnected
negotiated (listener bridge) = listener (Listener.negcountinc bridge)
negotiated (connector bridge) = connector (Connector.setconnected bridge true)

-- Every round reads at least the size, eight bytes.
unfoldable pub thread_rx : Machine → Which → List ℕ → Net → ℕ → M (Which × Option Net)
unfolding getok rx_loop negotiated
thread_rx machine which stream net e = do
  (rsid, rest) ← getok (read_be 8 0 stream)
  let net' = set_cell net e (Endpoint.setsid (net.cell e) rsid)
  left ← rx_loop (suc (length rest)) machine rest net' e
  pure (negotiated which, left)
