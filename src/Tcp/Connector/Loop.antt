-- ===== src/Tcp/Connector/Loop.antt =====
-- The loop of `thread` of src/tcp/connector.rs, from one use of the lock to the next, and `terminate`,
-- which another thread may call in between.
use water_rs.Prelude.{
  ℕ, suc, ◌≡◌, Bool, true, false, Option, none, some, Outcome, done, panicked, undefined,
}
use water_rs.Store.{Store}
use water_rs.SyncMessage.{Typed}
use water_rs.Endpoint
use water_rs.Net
use water_rs.Net.{Net, set_cell, get_neweid, clone_endpoint, add_endpoint}
use water_rs.Tcp.Link.{create_unused}
use water_rs.Tcp.Connector.{TcpBridgeConnector, terminate, drop_old}

-- Where the thread stands: before `connect`, behind it, in front of `Endpoint::new`, behind
-- `add_endpoint`, behind the start of both threads, in front of `join`, behind it, or returned.
pub data At : Type 0 where
  connecting reached checked : At
  registered : ℕ → At
  spawned : ℕ → At
  linked : ℕ → At
  joined returned : At

pub record Bridge : Type 0 where
  pub connector : TcpBridgeConnector
  pub net : Net
  pub store : Store
  pub at : At

-- `if terminate { return; }`, and where the thread goes otherwise.
unfoldable pub unless_terminated : Bridge → At → Bridge
unless_terminated s next = elim s.connector.terminate [
  | true ↦ record s { at = returned }
  | false ↦ record s { at = next }
]

-- The `return` behind `add_endpoint` drops the handle of the thread. If that panics, the thread is at
-- its end as well.
unfoldable pub abandon : Bridge → Outcome Net → Bridge
abandon s (done net) = record s { net = net; at = returned }
abandon s panicked = record s { at = returned }
abandon s undefined = record s { at = returned }

-- The last `if terminate { return; }` in front of the threads of the link.
unfoldable pub spawn_unless_terminated : Bridge → ℕ → Bridge
unfolding abandon Net.drop
spawn_unless_terminated s e = elim s.connector.terminate [
  | true ↦ abandon s (Net.drop s.net e)
  | false ↦ record s { at = spawned e }
]

-- The endpoint that both threads share, up to `add_endpoint`.
unfoldable pub register : Net → Net × ℕ
register net =
    let (net1, eid) = get_neweid net in
    let (net2, e) = create_unused net1 eid in
    let (net3, gid) = get_neweid net2 in
    let net4 = set_cell net3 e (Endpoint.setgid (net3.cell e) gid) in
    (add_endpoint (clone_endpoint net4 e) e, e)

-- A step of the thread.
pub data Step (s : Bridge) : Bridge → Type 0 where
  fails : s.at ≡ connecting → Step s (unless_terminated s connecting)
  connects : s.at ≡ connecting → Step s (record s { at = reached })
  checks : s.at ≡ reached → Step s (unless_terminated s checked)
  registers :
      s.at ≡ checked
      → Step s (record s { net = (register s.net).0; at = registered (register s.net).1 })
  spawns : (e : ℕ) → s.at ≡ registered e → Step s (spawn_unless_terminated s e)
  sets :
      (e : ℕ) {net : Net}
      → s.at ≡ spawned e
      → drop_old s.connector.ep s.net ≡ done net
      → Step s
          (record s { connector = record s.connector { ep = some e }; net = net; at = linked e })
  joins : (e : ℕ) → s.at ≡ linked e → Step s (record s { at = joined })
  disconnects :
      s.at ≡ joined
      → Step s (
          unless_terminated
            (record s { connector = record s.connector { connected = false } })
            connecting)

-- A step of the thread, or of the others: a call of `terminate`, or a change of the net, of the memory
-- and of `connected`.
pub data Event (ty : Typed (Unit {0})) (s : Bridge) : Bridge → Type 0 where
  runs : {t : Bridge} → Step s t → Event ty s t
  terminates :
      {connector : TcpBridgeConnector} {net : Net} {store : Store}
      → terminate ty s.connector s.net s.store ≡ done ((connector, net), store)
      → Event ty s (record s { connector = connector; net = net; store = store })
  elsewhere :
      (net : Net) (store : Store) (connected : Bool)
      → Event ty s (record s {
        connector = record s.connector { connected = connected };
        net = net;
        store = store;
      })

pub data Reach (ty : Typed (Unit {0})) (s : Bridge) : Bridge → Type 0 where
  here : Reach ty s s
  later : {t u : Bridge} → Reach ty s t → Event ty t u → Reach ty s u

-- How many steps of its own a thread that is told to terminate takes until it returns; `none` where it
-- has passed its last test, and serves the link first.
abbrev pub left : At → Option ℕ
left connecting = some 2
left reached = some 1
left checked = some 2
left (registered e) = some 1
left (spawned e) = none
left (linked e) = none
left joined = some 1
left returned = some 0

-- How many steps the thread took.
abbrev pub own : {ty : Typed (Unit {0})} {s t : Bridge} → Reach ty s t → ℕ
own here = 0
own (later r (runs st)) = suc (own r)
own (later r (terminates e)) = own r
own (later r (elsewhere net store connected)) = own r
