-- ===== src/Tcp/Connector.antt =====
-- src/tcp/connector.rs: the flags of a connector and the endpoint of its link. Every method is one
-- step under its lock.
pub mod Loop
pub mod Stops
mod Tests
use water_rs.Prelude.{
  ℕ, Bool, true, false, not, Option, none, some, Outcome, done, panicked, undefined,
}
use water_rs.Store.{M, pure, ◌>>=◌}
use water_rs.SyncMessage.{Typed}
use water_rs.Message
use water_rs.Endpoint
use water_rs.Net
use water_rs.Net.{Net, set_cell, clone_endpoint}
use water_rs.Tcp.Link.{link}

-- `Internal`, but for the net, the address and the group, which nothing reads.
pub record TcpBridgeConnector : Type 0 where
  pub ep : Option ℕ
  pub terminate : Bool
  pub connected : Bool

unfoldable pub new : TcpBridgeConnector
new = record { ep = none; terminate = false; connected = false }

-- `Net::tcpconnect`.
unfoldable pub tcpconnect : TcpBridgeConnector
unfolding new
tcpconnect = new

unfoldable pub connected : TcpBridgeConnector → Bool
connected b = b.connected

unfoldable pub setconnected : TcpBridgeConnector → Bool → TcpBridgeConnector
setconnected b connected = record b { connected = connected }

-- The message for the thread that writes: `ty` is `TerminateMessage`.
pub give_terminate : Typed (Unit {0}) → Option ℕ → Net → M Net
give_terminate ty none net = pure net
give_terminate ty (some e) net = do
  msg ← Message.new_clone ty tt
  (ep, taken) ← Endpoint.give (net.cell e) msg
  pure (set_cell net e ep)

unfoldable pub terminate :
    Typed (Unit {0}) → TcpBridgeConnector → Net → M (TcpBridgeConnector × Net)
unfolding give_terminate Message.new_clone Endpoint.give
terminate ty b net = do
  net' ← give_terminate ty b.ep net
  pure (record b { terminate = true }, net')

-- The handle that an earlier connection left in `ep` is dropped when the new one takes its place.
unfoldable pub drop_old : Option ℕ → Net → Outcome Net
unfolding Net.drop
drop_old none net = done net
drop_old (some e) net = Net.drop net e

replace : TcpBridgeConnector → ℕ → Outcome Net → Outcome (Option (TcpBridgeConnector × Net × ℕ))
replace b e (done net) = done (some (record b { ep = some e }, net, e))
replace b e panicked = panicked
replace b e undefined = undefined

-- What `thread` does with a connection that it made, up to where it waits for both threads: `none` if
-- it finds that it is to terminate. One more handle than the threads' stays in `ep`. It runs as one
-- step, so that its later tests of `terminate` answer as the first one.
unfoldable pub connect : TcpBridgeConnector → Net → Outcome (Option (TcpBridgeConnector × Net × ℕ))
unfolding link clone_endpoint drop_old replace Net.drop
connect b net = elim b.terminate [
  | true ↦ done none
  | false ↦ let (net', e) = link net in replace b e (drop_old b.ep (clone_endpoint net' e))
]

-- Behind both threads: the link is gone, and `true` if the thread goes on to connect again.
unfoldable pub disconnect : TcpBridgeConnector → TcpBridgeConnector × Bool
disconnect b = (record b { connected = false }, not b.terminate)
