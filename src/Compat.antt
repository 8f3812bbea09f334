-- ===== src/Compat.antt =====
-- src/compat.rs: channels on a net of two endpoints. The proxies of both ends are the numbers of
-- their endpoints.
pub mod Carries
pub mod Channel
pub mod Ends
mod Tests
pub mod Fifo
pub mod Take
pub mod Hangup
use water_rs.Prelude.{
  ℕ, zero, suc, ◌+◌, Bool, true, false, List, [], ◌∷◌, Option, none, some, length, ltb,
  if◌then◌else◌,
}
use water_rs.Store.{M, pure, panic, ◌>>=◌}
use water_rs.SyncMessage.{Typed}
use water_rs.Message
use water_rs.Message.{Message}
use water_rs.Endpoint.{Endpoint, IoResult}
use water_rs.Net
use water_rs.Net.{Net}

-- `std::result::Result`.
pub data Result (T E : Type 0) : Type 0 where
  ok : T → Result T E
  err : E → Result T E

pub data TryRecvError : Type 0 where
  empty disconnected : TryRecvError

-- `channel`: the net, the end that sends and the end that receives.
unfoldable pub channel : (ℕ → Endpoint) → Net × ℕ × ℕ
unfolding Net.new Net.new_endpoint
channel cell =
    let (net1, epa) = Net.new_endpoint (Net.new cell 200) in
    let (net2, epb) = Net.new_endpoint net1 in (net2, epa, epb)

-- `Endpoint::getpeercount`.
unfoldable pub getpeercount : Net → ℕ
unfolding Net.getepcount
getpeercount net = Net.getepcount net

-- `clone` of both proxies, and the iterator that `iter` makes of such a clone.
unfoldable pub clone_proxy : Net → ℕ → Net × ℕ
unfolding Net.clone_endpoint
clone_proxy net ep = (Net.clone_endpoint net ep, ep)

unfoldable pub iter : Net → ℕ → Net × ℕ
unfolding clone_proxy
iter net ep = clone_proxy net ep

unfoldable pub getendpoint : ℕ → ℕ
getendpoint ep = ep

module _ {T : Type 0} (ty : Typed T) where
  unfoldable pub send_opt : Net → ℕ → T → M (Net × Result (Unit {0}) T)
  unfolding getpeercount Net.sendsynctype
  send_opt net ep t = elim (ltb (getpeercount net) 2) [
    | true ↦ pure (net, err t)
    | false ↦ do (net', n) ← Net.sendsynctype ty net ep t; pure (net', ok tt)
  ]

  -- A value that could not be sent.
  or_panic : Net × Result (Unit {0}) T → M Net
  or_panic (net, ok u) = pure net
  or_panic (net, err t) = panic

  unfoldable pub send : Net → ℕ → T → M Net
  unfolding send_opt or_panic
  send net ep t = do answer ← send_opt net ep t; or_panic answer

  -- Raw messages and those of another type are ignored.
  unfoldable pub instance_of : Message → M (Option T)
  unfolding Message.is_raw Message.is_type Message.typeunwrap
  instance_of msg = elim (Message.is_raw msg) [
    | true ↦ pure none
    | false ↦ elim (Message.is_type ty msg) [
      | false ↦ pure none
      | true ↦ do value ← Message.typeunwrap ty msg; pure (some value)
    ]
  ]

  -- The loop of `try_recv`; `none` if `fuel` rounds do not end it.
  unfoldable pub try_recv_loop : ℕ → Net → ℕ → M (Net × Option (Result T TryRecvError))
  unfolding instance_of Net.endpoint_recv
  try_recv_loop zero net ep = pure (net, none)
  try_recv_loop (suc fuel) net ep = do
    (net', result) ← Net.endpoint_recv net ep
    elim result [
      | IoResult.err e ↦ pure (net', some (err empty))
      | IoResult.ok msg ↦ do
        instance' ← instance_of msg
        elim instance' [ some t ↦ pure (net', some (ok t)) | none ↦ try_recv_loop fuel net' ep ]
    ]

  -- Every round but the last takes a message out of the queue.
  unfoldable pub try_recv : Net → ℕ → M (Net × Option (Result T TryRecvError))
  unfolding try_recv_loop
  try_recv net ep = try_recv_loop (suc (length (net.cell ep).messages.vec)) net ep

  -- `recv`, over what `recvorblockforever` returns in turn; `none` while it waits for more.
  unfoldable pub recv : List (IoResult Message) → M (Option T)
  unfolding instance_of
  recv [] = pure none
  recv (IoResult.err e ∷ results) = panic
  recv (IoResult.ok msg ∷ results) = do
    instance' ← instance_of msg
    elim instance' [ some t ↦ pure (some t) | none ↦ recv results ]

  -- `recv_opt`, over what `recvorblock` returns in turn, each with the count of peers behind it.
  unfoldable pub recv_opt : List (IoResult Message × ℕ) → M (Option (Result T (Unit {0})))
  unfolding instance_of
  recv_opt [] = pure none
  recv_opt ((IoResult.err e, peers) ∷ results) = elim (ltb peers 2) [
    | true ↦ pure (some (err tt))
    | false ↦ recv_opt results
  ]
  recv_opt ((IoResult.ok msg, peers) ∷ results) = do
    instance' ← instance_of msg
    elim instance' [ some t ↦ pure (some (ok t)) | none ↦ recv_opt results ]

  next_of : Option (Result T (Unit {0})) → Option (Option T)
  next_of none = none
  next_of (some (ok t)) = some (some t)
  next_of (some (err u)) = some none

  -- `MessagesIterator::next`; the outer `none` while it waits for more.
  unfoldable pub next : List (IoResult Message × ℕ) → M (Option (Option T))
  unfolding recv_opt next_of
  next results = do result ← recv_opt results; pure (next_of result)
