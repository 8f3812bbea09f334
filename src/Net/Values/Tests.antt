-- ===== src/Net/Values/Tests.antt =====
-- Runs of the theorems on values that are sent over a net (src/net.rs).
use water_rs.Prelude.{ℕ, ◌%◌, ◌≡◌, refl, List, [], ◌∷◌, done, arith}
use water_rs.RawMessage.{usize_mod}
use water_rs.Store.{Store}
use water_rs.Message.{Message}
use water_rs.Endpoint.Accounting.{total_cap}
use water_rs.Net.{Net}
use water_rs.Net.Values.{Types, Trait, Use, uses, AllUnwrap, AllSendable}
use water_rs.Net.Values.Offers.{AllFair}
use water_rs.Net.Values.Runs.{uses-AllUnwrap, uses-counted}
use water_rs.Samples.{Point, point_layout, store, store-IsSound, net, net-IsListed, raw_message}

abbrev points : Types
points k = (Point, point_layout)

abbrev first_is_one : Trait points
first_is_one k t = t.x ≡ 1

net-AllFair : AllFair points first_is_one net store
net-AllFair e = record { count = record { counted = refl; live = tt }; readable = tt }

abbrev used : List (Use points)
used =
    Use.sends_sync 0 77 (record { x = 1; y = 2 })
    ∷ Use.sends_clone 1 78 (record { x = 1; y = 3 })
    ∷ Use.joins
    ∷ Use.sends 0 raw_message
    ∷ Use.receives 1
    ∷ Use.receives 1
    ∷ Use.receives 0
    ∷ []

used-AllSendable : AllSendable points first_is_one used store
used-AllSendable = (refl, (refl, (tt, (omega arith, (tt, (tt, (tt, tt)))))))

uses-AllUnwrap_example :
    (net' : Net) × (ms : List Message) × (t : Store) × (uses points used net store
      ≡ done ((net', ms), t))
    × AllUnwrap points first_is_one ms t
uses-AllUnwrap_example =
    uses-AllUnwrap points first_is_one used net store (λ k. omega arith) store-IsSound net-IsListed
      net-AllFair used-AllSendable

uses-counted_example :
    (net' : Net) × (ms : List Message) × (t : Store) × (uses points used net store
      ≡ done ((net', ms), t))
    × ((e : ℕ) → (net'.cell e).memoryused ≡ total_cap (net'.cell e).messages.vec t % usize_mod)
uses-counted_example =
    uses-counted points first_is_one used net store (λ k. omega arith) store-IsSound net-IsListed
      net-AllFair used-AllSendable
