-- ===== src/Net/Values.antt =====
-- What the users of a net (src/net.rs, src/endpoint.rs) send as values of some type, and what those who
-- receive it find in it (src/message.rs).
pub mod Steps
pub mod Offers
pub mod Moves
pub mod Runs
mod Tests
use water_rs.Prelude.{ℕ, suc, ◌+◌, ◌<◌, ◌≡◌, ◌⊎◌, true, List, [], ◌∷◌, ◌++◌, done}
use water_rs.RawMessage.{Layout, readstructunsaferef, usize_mod}
use water_rs.Store.{Store, M, pure, ◌>>=◌}
use water_rs.SyncMessage.{Typed}
use water_rs.Message.{Message, MessagePayload, is_raw, is_type, typeunwrap}
use water_rs.Endpoint.{IoResult, err, ok}
use water_rs.Net.{Net, endpoint_send, endpoint_recv, new_endpoint, sendsynctype, sendclonetype}

-- The types of the program by their `TypeId`, each with the way the compiler lays it out.
abbrev pub Types : Type 1
Types = ℕ → (T : Type 0) × Layout T

abbrev pub typed : (types : Types) (k : ℕ) → Typed (types k).0
typed types k = record { layout = (types k).1; type_id = k }

-- Send a value to everyone on the net, send a message, receive one, join with a new endpoint.
pub data Use (types : Types) : Type 0 where
  sends_sync sends_clone : ℕ → (k : ℕ) → (types k).0 → Use types
  sends : ℕ → Message → Use types
  receives : ℕ → Use types
  joins : Use types

abbrev pub result_list : IoResult Message → List Message
result_list (ok msg) = msg ∷ []
result_list (err e) = []

module _ (types : Types) where
  -- The net behind the step, and the messages that it handed out.
  unfoldable pub use_net : Use types → Net → M (Net × List Message)
  unfolding endpoint_send endpoint_recv sendsynctype sendclonetype
  use_net (sends_sync e k t) net = do
    (net', n) ← sendsynctype (typed types k) net e t
    pure (net', [])
  use_net (sends_clone e k t) net = do
    (net', n) ← sendclonetype (typed types k) net e t
    pure (net', [])
  use_net (sends e msg) net = do (net', n) ← endpoint_send net e msg; pure (net', [])
  use_net (receives e) net = do
    (net', result) ← endpoint_recv net e
    pure (net', result_list result)
  use_net joins net = pure ((new_endpoint net).0, [])

  unfoldable pub uses : List (Use types) → Net → M (Net × List Message)
  unfolding use_net
  uses [] net = pure (net, [])
  uses (u ∷ us) net = do
    (net', ms) ← use_net u net
    (net'', later) ← uses us net'
    pure (net'', ms ++ later)

-- A property that values may have, type by type.
abbrev pub Trait : Types → Type 1
Trait types = (k : ℕ) → (types k).0 → Type 0

module _ (types : Types) (P : Trait types) where
  -- A message that refers to live memory; a typed one to a value of its type that has the property.
  abbrev pub IsReadablePayload : MessagePayload → Store → Type 0
  IsReadablePayload (MessagePayload.raw r) s = r < s.next
  IsReadablePayload (MessagePayload.sync y) s =
      (y.payload < s.next)
      × ((t : (types y.tyid).0) × (readstructunsaferef (types y.tyid).1 (s.buffer y.payload) 0
            ≡ done t)
          × P y.tyid t)
  IsReadablePayload (MessagePayload.clone y) s =
      (y.payload < s.next)
      × ((t : (types y.tyid).0) × (readstructunsaferef (types y.tyid).1 (s.buffer y.payload) 0
            ≡ done t)
          × P y.tyid t)

  abbrev pub IsReadable : Message → Store → Type 0
  IsReadable msg s = IsReadablePayload msg.payload s

  abbrev pub AllReadable : List Message → Store → Type 0
  AllReadable [] s = Unit {0}
  AllReadable (m ∷ ms) s = IsReadable m s × AllReadable ms s

  -- It exists from the start; a value that is sent has the property.
  abbrev pub IsSendable : Use types → Store → Type 0
  IsSendable (sends e msg) s = IsReadable msg s
  IsSendable (sends_sync e k t) s = P k t
  IsSendable (sends_clone e k t) s = P k t
  IsSendable (receives e) s = Unit {0}
  IsSendable joins s = Unit {0}

  abbrev pub AllSendable : List (Use types) → Store → Type 0
  AllSendable [] s = Unit {0}
  AllSendable (u ∷ us) s = IsSendable u s × AllSendable us s

  -- A message is raw, or `typeunwrap` at some type, which is the one that `is_type` tells, has a value,
  -- which has the property.
  abbrev pub Unwraps : Message → Store → Type 0
  Unwraps msg s =
      (is_raw msg ≡ true)
      ⊎ ((k : ℕ) × (t : (types k).0) × (is_type (typed types k) msg ≡ true)
          × (typeunwrap (typed types k) msg s ≡ done (t, s))
          × P k t)

  abbrev pub AllUnwrap : List Message → Store → Type 0
  AllUnwrap [] s = Unit {0}
  AllUnwrap (m ∷ ms) s = Unwraps m s × AllUnwrap ms s
