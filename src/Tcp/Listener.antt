-- ===== src/Tcp/Listener.antt =====
-- src/tcp/listener.rs: the flags and counts of a listener. Every method is one step under its lock.
pub mod Loop
pub mod Refuses
mod Tests
use water_rs.Prelude.{ℕ, ◌+◌, ◌%◌, Bool, true, false, Option, none, some, List}
use water_rs.RawMessage.{usize_mod}
use water_rs.Net.{Net}
use water_rs.Tcp.Link.{link}

-- `Internal`, but for the net; the address is its bytes, and the acceptor is `some true` while it listens and
-- `some false` behind `close_accept`.
pub record TcpBridgeListener : Type 0 where
  pub addr : List ℕ
  pub terminate : Bool
  pub clientcount : ℕ
  pub negcount : ℕ
  pub acceptor : Option Bool

unfoldable pub new : List ℕ → TcpBridgeListener
new addr = record { addr = addr; terminate = false; clientcount = 0; negcount = 0; acceptor = none }

-- `Net::tcplisten`.
unfoldable pub tcplisten : List ℕ → TcpBridgeListener
unfolding new
tcplisten addr = new addr

unfoldable pub close_accept : Option Bool → Option Bool
close_accept none = none
close_accept (some listening) = some false

unfoldable pub terminate : TcpBridgeListener → TcpBridgeListener
unfolding close_accept
terminate b = record b { terminate = true; acceptor = close_accept b.acceptor }

unfoldable pub setacceptor : TcpBridgeListener → Option Bool → TcpBridgeListener
setacceptor b op = record b { acceptor = op }

unfoldable pub getterminate : TcpBridgeListener → Bool
getterminate b = b.terminate

unfoldable pub getaddr : TcpBridgeListener → List ℕ
getaddr b = b.addr

unfoldable pub getclientcount : TcpBridgeListener → ℕ
getclientcount b = b.clientcount

unfoldable pub getnegcount : TcpBridgeListener → ℕ
getnegcount b = b.negcount

unfoldable pub clientcountinc : TcpBridgeListener → TcpBridgeListener
clientcountinc b = record b { clientcount = (b.clientcount + 1) % usize_mod }

unfoldable pub negcountinc : TcpBridgeListener → TcpBridgeListener
negcountinc b = record b { negcount = (b.negcount + 1) % usize_mod }

-- One stream that `thread_accept` takes: the endpoint of both threads, then the count.
unfoldable pub accept : TcpBridgeListener → Net → TcpBridgeListener × Net × ℕ
unfolding link clientcountinc
accept b net = let (net', e) = link net in (clientcountinc b, net', e)
