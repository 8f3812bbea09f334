-- ===== src/Tcp/Tests.antt =====
-- Runs of the theorems on src/tcp/mod.rs.
use water_rs.Prelude.{
  inl, inr, ◌≢◌, refl, true, false, ◌<◌, ℕ, ◌≡◌, List, [], ◌∷◌, some, done, arith,
}
use water_rs.Store.{Store, RawMessage, len, as_slice}
use water_rs.Tcp.{Machine, thread_rx, Which, listener, negotiated}
use water_rs.Tcp.{tx_loop, rx_loop}
use water_rs.Tcp.Stream.{Sent, outbox, AllSendable, deliver, rx_loop-tx_loop}
use water_rs.SyncMessage.{Typed}
use water_rs.Net.{Net, endpoint_send, endpoint_recv, occurrences}
use water_rs.Net.Handles.{Distinct}
use water_rs.Endpoint.Give.{IsFor, HasRoom}
use water_rs.Tcp.Crossing.{send-crosses}
use water_rs.Tcp.Hops.{addressed, with_raw}
use water_rs.Tcp.Roundtrip.{IsSendable}
use water_rs.Tcp.Ends.{EndsWith, thread_rx-EndsWith}
use water_rs.Tcp.Link.{link}
use water_rs.Tcp.Link.Joins.{link-OwnedBy}
use water_rs.Net.Ids.{IsNumbered}
use water_rs.Net.Lifetime.{OwnedBy}
use water_rs.Endpoint.{unused_id, ok}
use water_rs.Samples.{store, store-IsSound, raw_message, net, net-IsNumbered}

abbrev machine : Machine
machine = record { limit = 1000; mem = λ i. 0 }

sendable : IsSendable machine raw_message 3 store
unfolding len
sendable = record {
  addressed = record {
    srcsid = omega arith;
    srceid = omega arith;
    dstsid = omega arith;
    dsteid = omega arith;
  };
  some_byte = omega arith;
  countable = omega arith;
  fits = omega arith;
}

-- The address of the other net, and the size of a message that does not come.
abbrev cut_off : List ℕ
cut_off = 0 ∷ 0 ∷ 0 ∷ 0 ∷ 0 ∷ 0 ∷ 0 ∷ 7 ∷ 0 ∷ 0 ∷ 0 ∷ 0 ∷ 0 ∷ 0 ∷ 0 ∷ 40 ∷ 1 ∷ []

abbrev bridge : Which
bridge =
    listener
      (record { addr = []; terminate = false; clientcount = 1; negcount = 0; acceptor = some true })

thread_rx-EndsWith_example :
    EndsWith (negotiated bridge) (thread_rx machine bridge cut_off net 0 store)
thread_rx-EndsWith_example = thread_rx-EndsWith machine bridge cut_off net 0 store

link-OwnedBy_example :
    let (net', e) = link net in
    IsNumbered net'
    × OwnedBy net' e 2
    × ((net'.cell e).sid ≡ unused_id)
    × ((net'.cell e).eid ≡ 100)
    × ((net'.cell e).gid ≡ 101)
    × ((d : ℕ) → d < 2 → net'.cell d ≡ net.cell d)
link-OwnedBy_example = link-OwnedBy net net-IsNumbered (omega arith)

abbrev terminate_message : Typed (Unit {0})
terminate_message = record {
  layout = record {
    size_of = 0;
    to_bytes = λ t. [];
    of_bytes = λ bs. tt;
    length-to_bytes = λ t. refl;
    of_bytes-to_bytes = λ t. refl;
  };
  type_id = 99;
}

abbrev two : List Sent
two = (raw_message, 3) ∷ (record raw_message { dstsid = 1 }, 3) ∷ []

two-AllSendable : AllSendable machine store two
two-AllSendable = (
  sendable,
  (
    record {
      addressed = record {
        srcsid = omega arith;
        srceid = omega arith;
        dstsid = omega arith;
        dsteid = omega arith;
      };
      some_byte = sendable.some_byte;
      countable = sendable.countable;
      fits = sendable.fits;
    },
    tt,
  ),
)

rx_loop-tx_loop_example :
    (written : List ℕ) × (tx_loop terminate_message (outbox two) store ≡ done (written, store))
    × ((fuel : ℕ) (net : Net) (e : ℕ) (t : Store)
        → 2 < fuel
        → rx_loop fuel machine written net e t ≡ deliver two store net e t)
rx_loop-tx_loop_example =
    rx_loop-tx_loop machine terminate_message two store store-IsSound two-AllSendable

net-Distinct : Distinct net.endpoints
unfolding occurrences
net-Distinct = (refl, (refl, tt))

net_listed : occurrences 1 net.endpoints ≢ 0
unfolding occurrences
net_listed = λ e. omega (arith, e)

to_second : IsFor (net.cell 1) (addressed net 0 raw_message)
to_second = record {
  no_loop = inr (inl (λ e. omega (arith, e)));
  net = inl refl;
  endpoint = inl refl;
}

roomy : HasRoom (net.cell 1)
roomy = record { pending = inr (omega arith); memory = inl refl }

-- Endpoint 1 of each net is the one that the message goes over, or to.
send-crosses_example :
    (net1 net2 other' : Net) × (n : ℕ) × (s1 s2 t' : Store) × (h copy : RawMessage)
    × (written : List ℕ) × (endpoint_send net 0 raw_message store ≡ done ((net1, n), s1))
    × (endpoint_recv net1 1 s1 ≡ done ((net2, ok (with_raw (addressed net 0 raw_message) h)), s2))
    × (tx_loop terminate_message (ok (with_raw (addressed net 0 raw_message) h) ∷ []) s2
        ≡ done (written, s2))
    × (rx_loop 2 machine written net 0 store ≡ done (some other', t'))
    × ((other'.cell 1).messages.vec
        ≡ with_raw (record (addressed net 0 raw_message) { canloop = false }) copy ∷ [])
    × (as_slice copy t' ≡ 7 ∷ 8 ∷ 9 ∷ [])
send-crosses_example =
    send-crosses machine terminate_message net net 0 1 1 0 raw_message 3 store store store-IsSound
      store-IsSound net-Distinct net_listed refl to_second roomy
      (record {
        srcsid = omega arith;
        srceid = omega arith;
        dstsid = omega arith;
        dsteid = omega arith;
      })
      (omega arith) (omega arith) (omega arith) net-Distinct net_listed to_second roomy
