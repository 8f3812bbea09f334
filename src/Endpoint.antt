-- ===== src/Endpoint.antt =====
-- src/endpoint.rs: an endpoint, what it takes from the net and what it hands to a receiver. Every
-- method is one step here; locks are not held across two methods.
pub mod Fields
pub mod Give
pub mod Receive
pub mod Accounting
pub mod Blocking
mod Tests
use water_rs.Prelude.{
  ℕ, ◌+◌, ◌-◌, ◌%◌, ◌^◌, Bool, true, false, not, ◌&&◌, List, [], ◌∷◌, Option, none, some, Outcome,
  done, ltb, leb, ◌==◌, if◌then◌else◌,
}
use water_rs.Prelude.Int.{ℤ, pos}
use water_rs.Timespec.{Timespec}
use water_rs.RawMessage.{usize_mod}
use water_rs.Store.{Store, M, pure, panic, ◌>>=◌, ◌>>◌, and_then}
use water_rs.SyncMessage.{SyncMessage, internal_key, takeasvalid}
use water_rs.Message
use water_rs.Message.{Message, MessagePayload}
use water_rs.Queue.SafeQueue
use water_rs.Queue.SafeQueue.{SafeQueue}

pub data IoErrorCode : Type 0 where
  timed_out no_messages : IoErrorCode

pub record IoError : Type 0 where
  pub code : IoErrorCode

pub data IoResult {ℓ} (A : Type ℓ) : Type ℓ where
  err : IoError → IoResult A
  ok : A → IoResult A

unfoldable pub is_ok {ℓ} : {A : Type ℓ} → IoResult A → Bool
is_ok (ok v) = true
is_ok (err e) = false

unfoldable pub is_err {ℓ} : {A : Type ℓ} → IoResult A → Bool
is_err (ok v) = false
is_err (err e) = true

-- `UNUSED_ID`.
abbrev pub unused_id : ℕ
unused_id = 2 ^ 64 - 1

-- `Internal` with its address, but for the mutex and the condition variable; `net_sid` is `net.getserveraddr()`, which never changes, and
-- `notified` counts the calls of `wait.notify_one`.
pub record Endpoint : Type 0 where
  pub eid : ℕ
  pub sid : ℕ
  pub gid : ℕ
  pub messages : SafeQueue Message
  pub memoryused : ℕ
  pub limitpending : ℕ
  pub limitmemory : ℕ
  pub net_sid : ℕ
  pub refcnt : ℕ
  pub dropped : Bool
  pub notified : ℕ
  pub wakeupat : Timespec
  pub slpcnt : ℕ

-- So far in the future that it never comes.
abbrev pub never : Timespec
never = record { sec = pos (2 ^ 63 - 1); nsec = pos 0 }

unfoldable pub new : ℕ → ℕ → ℕ → Endpoint
unfolding SafeQueue.new
new sid eid net_sid = record {
  eid = eid;
  sid = sid;
  gid = unused_id;
  messages = SafeQueue.new 10;
  memoryused = 0;
  limitpending = 0;
  limitmemory = 0;
  net_sid = net_sid;
  refcnt = 1;
  dropped = false;
  notified = 0;
  wakeupat = never;
  slpcnt = 0;
}

unfoldable pub setlimitpending : Endpoint → ℕ → Endpoint
setlimitpending ep limit = record ep { limitpending = limit }

unfoldable pub setlimitmemory : Endpoint → ℕ → Endpoint
setlimitmemory ep limit = record ep { limitmemory = limit }

unfoldable pub setgid : Endpoint → ℕ → Endpoint
setgid ep id = record ep { gid = id }

unfoldable pub setsid : Endpoint → ℕ → Endpoint
setsid ep id = record ep { sid = id }

unfoldable pub seteid : Endpoint → ℕ → Endpoint
seteid ep id = record ep { eid = id }

unfoldable pub hasmessages : Endpoint → Bool
unfolding SafeQueue.len
hasmessages ep = ltb 0 (SafeQueue.len ep.messages)

unfoldable pub neverwakeme : Endpoint → Endpoint
neverwakeme ep = record ep { wakeupat = never }

unfoldable pub getwaketime : Endpoint → Timespec
getwaketime ep = ep.wakeupat

unfoldable pub sleepercount : Endpoint → ℕ
sleepercount ep = ep.slpcnt

unfoldable pub wakeonewaiter : Endpoint → Endpoint
wakeonewaiter ep = record ep { notified = ep.notified + 1 }

-- The part of `give` behind its checks: the message is cloned, queued and counted.
unfoldable pub enqueue : Endpoint → Message → M (Endpoint × Bool)
unfolding SafeQueue.put wakeonewaiter Message.cap Message.clone Message.internal_clone
enqueue ep msg = do
  cloned ←
      if Message.is_sync msg then Message.internal_clone msg internal_key else Message.clone msg
  λ s. done (
    (
      wakeonewaiter (record ep {
        messages = SafeQueue.put ep.messages cloned;
        memoryused = (ep.memoryused + Message.cap msg s) % usize_mod;
      }),
      true,
    ),
    s,
  )

-- The address checks of `give`: `true` where it returns `false`.
unfoldable pub misrouted : Endpoint → Message → Bool
misrouted ep msg =
    if not msg.canloop && (msg.srceid == ep.eid && msg.srcsid == ep.sid)
    then true
    else if not (msg.dstsid == 0)
        && (if not (msg.dstsid == 1)
            then not (msg.dstsid == ep.sid)
            else not (ep.sid == ep.net_sid))
    then true
    else not (msg.dsteid == 0) && not (msg.dsteid == ep.eid)

unfoldable pub over_limit : Endpoint → Bool
unfolding SafeQueue.len
over_limit ep =
    if ltb 0 ep.limitpending && leb ep.limitpending (SafeQueue.len ep.messages)
    then true
    else ltb 0 ep.limitmemory && leb ep.limitmemory ep.memoryused

unfoldable pub give : Endpoint → Message → M (Endpoint × Bool)
unfolding enqueue misrouted over_limit
give ep msg =
    if misrouted ep msg
    then pure (ep, false)
    else if over_limit ep
    then pure (ep, false)
    else enqueue ep msg

-- A message has left the queue and its bytes no longer count.
abbrev pub released : Endpoint → List Message → ℕ → Endpoint
released ep rest sz = record ep {
  messages = record { vec = rest };
  memoryused = (ep.memoryused + usize_mod - sz) % usize_mod;
}

-- What `Internal::recv` does with a message that it took out, by its payload: `retry` is the rest of
-- the loop.
finish :
    MessagePayload
    → Message
    → Endpoint
    → M (Endpoint × IoResult Message)
    → M (Endpoint × IoResult Message)
finish (MessagePayload.raw r) msg ep retry = do m ← Message.dup msg; pure (ep, ok m)
finish (MessagePayload.sync m) msg ep retry =
    λ s. let (taken, t) = takeasvalid m s in if taken then done ((ep, ok msg), t) else retry t
finish (MessagePayload.clone m) msg ep retry = pure (ep, ok msg)

-- The loop of `Internal::recv`: `messages.get()` takes the head, until the queue is empty.
recv_loop : List Message → Endpoint → M (Endpoint × IoResult Message)
unfolding finish
recv_loop [] ep s = done ((ep, err (record { code = no_messages })), s)
recv_loop (head ∷ rest) ep s = and_then (Message.dup_ifok head s) λ msg t.
    let ep' = released ep rest (Message.cap msg t) in
    finish msg.payload msg ep' (recv_loop rest ep') t

unfoldable pub recv : Endpoint → M (Endpoint × IoResult Message)
unfolding recv_loop takeasvalid Message.cap Message.dup Message.dup_ifok
recv ep = recv_loop ep.messages.vec ep
