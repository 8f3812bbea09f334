-- ===== src/Net.antt =====
-- src/net.rs: the net, its endpoints and how messages are spread over them, with the methods of
-- `Endpoint` (src/endpoint.rs) that go through the net. An endpoint is named by the number of its
-- cell, as an `Arc` names its `Internal`; every method is one step under the net's lock.
pub mod Handles
pub mod Held
pub mod Listed
pub mod Spread
pub mod Once
pub mod Ids
pub mod Lifetime
pub mod Enrolment
pub mod Poll
pub mod Values
pub mod Sleeper
mod Tests
use water_rs.Prelude.{
  ℕ, suc, ◌+◌, ◌-◌, ◌*◌, ◌/◌, ◌%◌, Bool, true, not, ◌&&◌, List, [], ◌∷◌, ◌++◌, Outcome, done,
  panicked, undefined, ltb, ◌==◌, if◌then◌else◌, length,
}
use water_rs.RawMessage.{usize_mod}
use water_rs.Store.{update, M, pure, ◌>>=◌}
use water_rs.SyncMessage.{Typed}
use water_rs.Message
use water_rs.Message.{Message}
use water_rs.Endpoint
use water_rs.Endpoint.{Endpoint, IoResult, err, ok, no_messages, is_ok}

-- `sid` and the fields of `Internal`; `cell` holds the endpoints, those from `fresh` on being free.
pub record Net : Type 0 where
  pub sid : ℕ
  pub hueid : ℕ
  pub endpoints : List ℕ
  pub cell : ℕ → Endpoint
  pub fresh : ℕ

abbrev pub set_cell : Net → ℕ → Endpoint → Net
set_cell net e ep = record net { cell = update net.cell e ep }

unfoldable pub new : (ℕ → Endpoint) → ℕ → Net
new cell sid = record { sid = sid; hueid = 0x10000; endpoints = []; cell = cell; fresh = 0 }

unfoldable pub getepcount : Net → ℕ
getepcount net = length net.endpoints

unfoldable pub get_neweid : Net → Net × ℕ
get_neweid net = (record net { hueid = (net.hueid + 1) % usize_mod }, net.hueid)

-- `Endpoint::clone`: one more owner.
unfoldable pub clone_endpoint : Net → ℕ → Net
clone_endpoint net e =
    set_cell net e (record (net.cell e) { refcnt = ((net.cell e).refcnt + 1) % usize_mod })

-- `Endpoint::new`, in a cell of its own.
unfoldable pub create : Net → ℕ → Net × ℕ
create net eid = (
  record net {
    cell = update net.cell net.fresh (Endpoint.new net.sid eid net.sid);
    fresh = suc net.fresh;
  },
  net.fresh,
)

unfoldable pub add_endpoint : Net → ℕ → Net
add_endpoint net e = record net { endpoints = net.endpoints ++ (e ∷ []) }

-- What both ways to make an endpoint share: create it, keep one handle in the net's list.
unfoldable pub enrol : Net → ℕ → Net × ℕ
unfolding create clone_endpoint add_endpoint
enrol net eid = let (made, e) = create net eid in (add_endpoint (clone_endpoint made e) e, e)

unfoldable pub new_endpoint_withid : Net → ℕ → Net × ℕ
new_endpoint_withid net eid =
    if ltb net.hueid eid
    then enrol (record net { hueid = (eid + 1) % usize_mod }) eid
    else enrol net eid

unfoldable pub new_endpoint : Net → Net × ℕ
new_endpoint net = enrol (record net { hueid = (net.hueid + 1) % usize_mod }) net.hueid

-- The loop of `drop_endpoint`: how often the endpoint is listed.
unfoldable pub occurrences : ℕ → List ℕ → ℕ
occurrences e [] = 0
occurrences e (d ∷ ds) = if d == e then suc (occurrences e ds) else occurrences e ds

-- `endpoints.remove(ndx)` for the place where it was found.
pub remove : ℕ → List ℕ → List ℕ
remove e [] = []
remove e (d ∷ ds) = if d == e then ds else d ∷ remove e ds

-- The removed handle is dropped: its count falls, and `Drop` finds the endpoint marked as dropped.
unfoldable pub drop_endpoint : Net → ℕ → Outcome Net
unfolding occurrences remove
drop_endpoint net e =
    if occurrences e net.endpoints == 0
    then done net
    else if occurrences e net.endpoints == 1
    then done
        (record (set_cell net e
          (record (net.cell e) { refcnt = ((net.cell e).refcnt + usize_mod - 1) % usize_mod })) {
            endpoints = remove e net.endpoints;
          })
    else panicked

-- `Drop for Endpoint`: the owner of a handle lets go of it.
unfoldable pub drop : Net → ℕ → Outcome Net
unfolding drop_endpoint
drop net e =
    let refcnt = ((net.cell e).refcnt + usize_mod - 1) % usize_mod in
    let counted = set_cell net e (record (net.cell e) { refcnt = refcnt }) in
    if refcnt == 1 && not (net.cell e).dropped
    then drop_endpoint (set_cell counted e (record (counted.cell e) { dropped = true })) e
    else done counted

-- `endpoints.clone()`: one more handle of every listed endpoint.
unfoldable pub clone_all : List ℕ → Net → Net
unfolding clone_endpoint
clone_all [] net = net
clone_all (e ∷ es) net = clone_all es (clone_endpoint net e)

-- These handles are dropped where `send_internal` returns.
unfoldable pub drop_all : List ℕ → Net → Outcome Net
unfolding drop
drop_all [] net = done net
drop_all (e ∷ es) net = elim (drop net e) [
  | done net' ↦ drop_all es net'
  | panicked ↦ panicked
  | undefined ↦ undefined
]

with_count : ℕ → Outcome Net → M (Net × ℕ)
with_count ocnt (done net) s = done ((net, ocnt), s)
with_count ocnt panicked s = panicked
with_count ocnt undefined s = undefined

-- The loop of `send_internal` over the listed endpoints; `ocnt` counts those that took the message.
pub send_loop : List ℕ → Message → Net → ℕ → M (Net × ℕ)
send_loop [] msg net ocnt = pure (net, ocnt)
send_loop (e ∷ es) msg net ocnt = do
  (ep, taken) ← Endpoint.give (net.cell e) msg
  send_loop es msg (set_cell net e ep) (if taken then ocnt + 1 else ocnt)

unfoldable pub send_internal : Net → Message → M (Net × ℕ)
unfolding send_loop Endpoint.give clone_all drop_all with_count
send_internal net msg = do
  (net', ocnt) ← send_loop net.endpoints msg (clone_all net.endpoints net) 0
  with_count ocnt (drop_all net.endpoints net')

unfoldable pub send : Net → Message → M (Net × ℕ)
unfolding send_internal Message.is_raw Message.dup
send net msg =
    if Message.is_raw msg
    then (do copy ← Message.dup msg; send_internal net copy)
    else send_internal net msg

unfoldable pub sendas : Net → Message → ℕ → ℕ → M (Net × ℕ)
unfolding send
sendas net msg fromsid fromeid = send net (record msg { srcsid = fromsid; srceid = fromeid })

-- `Endpoint::sendx` and `Endpoint::send`.
unfoldable pub endpoint_sendx : Net → ℕ → Message → M (Net × ℕ)
unfolding send
endpoint_sendx net e msg = send net msg

unfoldable pub endpoint_send : Net → ℕ → Message → M (Net × ℕ)
unfolding sendas
endpoint_send net e msg = sendas net msg (net.cell e).sid (net.cell e).eid

module _ {T : Type 0} (ty : Typed T) where
  unfoldable pub sendsynctype : Net → ℕ → T → M (Net × ℕ)
  unfolding endpoint_send Message.new_sync
  sendsynctype net e t = do
    msg ← Message.new_sync ty t
    endpoint_send net e (record msg { dstsid = 1; dsteid = 0 })

  unfoldable pub sendclonetype : Net → ℕ → T → M (Net × ℕ)
  unfolding endpoint_send Message.new_clone
  sendclonetype net e t = do
    msg ← Message.new_clone ty t
    endpoint_send net e (record msg { dstsid = 1; dsteid = 0 })

-- `Endpoint::recv` of one endpoint of the net.
unfoldable pub endpoint_recv : Net → ℕ → M (Net × IoResult Message)
unfolding Endpoint.recv
endpoint_recv net e = do (ep, result) ← Endpoint.recv (net.cell e); pure (set_cell net e ep, result)

-- The function `recv` over a list of endpoints: the first that has a message.
unfoldable pub recv : List ℕ → Net → M (Net × IoResult Message)
unfolding endpoint_recv
recv [] net = pure (net, err (record { code = no_messages }))
recv (e ∷ es) net = do
  (net', result) ← endpoint_recv net e
  let rest = recv es net'
  if is_ok result then pure (net', result) else rest

abbrev pub net_maxlatency : ℕ
net_maxlatency = 100000

abbrev pub net_minlatency : ℕ
net_minlatency = 100

-- The adjustment at the end of a round of `sleeperthread`.
unfoldable pub adjust_latency : Bool → ℕ → ℕ
adjust_latency wokesomeone latency =
    if wokesomeone
    then (if ltb (latency / 2) net_minlatency then net_minlatency else latency / 2)
    else (if ltb net_maxlatency (latency * 2) then net_maxlatency else latency * 2)
