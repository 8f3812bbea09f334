-- ===== src/Net/Tests.antt =====
-- Runs of the theorems on src/net.rs.
use water_rs.Prelude.{ℕ, ◌+◌, ◌<◌, ◌≡◌, ◌≢◌, refl, List, [], ◌∷◌, done, arith}
use water_rs.RawMessage.{usize_mod}
use water_rs.Endpoint.{Endpoint}
use water_rs.Net.{
  Net, send_internal, clone_endpoint, drop, new_endpoint, new_endpoint_withid, get_neweid,
  occurrences,
}
use water_rs.Net.Spread.{IsSpread, pending, send_internal-IsSpread}
use water_rs.Net.Once.{Op, sends, receives, joins, run, StepsOnce, run-once}
use water_rs.Net.Ids.{All, IsNumbered, new-IsNumbered, new_endpoint_withid-collides}
use water_rs.Net.Lifetime.{OwnedBy, SparesOthers, clone-drop-OwnedBy}
use water_rs.Samples.{
  store, store-IsSound, raw_message, sync_message, net, net-IsListed, net-IsNumbered,
}

-- One sync message, which both endpoints and a late one ask for, and a raw message.
abbrev ops : List Op
ops = joins ∷ sends 2 sync_message ∷ sends 0 raw_message ∷ receives 0 ∷ receives 1 ∷ receives 1 ∷ []

run-once_example : StepsOnce (run ops net) store
run-once_example = run-once ops net store net-IsListed store-IsSound

send_internal-IsSpread_example :
    (cell' : ℕ → Endpoint) × (n : ℕ) × (send_internal net sync_message store
      ≡ done ((record net { cell = cell' }, n), store))
    × IsSpread (0 ∷ 1 ∷ []) sync_message store net.cell cell'
    × (n + pending (0 ∷ 1 ∷ []) net.cell ≡ pending (0 ∷ 1 ∷ []) cell')
send_internal-IsSpread_example =
    send_internal-IsSpread net sync_message store net-IsListed.distinct
      (λ d listed. record { owned = omega arith; countable = omega arith })

net-OwnedBy : OwnedBy net 0 1
unfolding occurrences
net-OwnedBy = (refl, refl, refl)

clone-drop-OwnedBy_example :
    OwnedBy (clone_endpoint net 0) 0 2
    × SparesOthers 0 net (clone_endpoint net 0)
    × ((net' : Net) × (drop net 0 ≡ done net') × OwnedBy net' 0 0 × SparesOthers 0 net net')
clone-drop-OwnedBy_example = clone-drop-OwnedBy net 0 0 (omega arith) net-OwnedBy

new-IsNumbered_example :
    IsNumbered (new_endpoint net).0
    × ((eid : ℕ)
        → eid + 1 < usize_mod
        → eid ≢ 100
        → All (λ e. (net.cell e).eid ≢ eid) (0 ∷ 1 ∷ [])
        → IsNumbered (new_endpoint_withid net eid).0)
    × IsNumbered (get_neweid net).0
    × All (λ e. (net.cell e).eid ≢ (get_neweid net).1) (0 ∷ 1 ∷ [])
new-IsNumbered_example = new-IsNumbered net net-IsNumbered (omega arith)

new_endpoint_withid-collides_example :
    let (net', a) = new_endpoint_withid net 100 in
    let (net'', b) = new_endpoint net' in (a ≢ b) × ((net''.cell a).eid ≡ (net''.cell b).eid)
new_endpoint_withid-collides_example = new_endpoint_withid-collides net
