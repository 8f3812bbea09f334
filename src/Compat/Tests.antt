-- ===== src/Compat/Tests.antt =====
-- Runs of the theorems on src/compat.rs.
use water_rs.Prelude.{ℕ, ◌≡◌, List, [], ◌∷◌, done, arith, refl}
use water_rs.Store.{Store}
use water_rs.SyncMessage.{Typed}
use water_rs.Net.{Net, drop, occurrences}
use water_rs.Net.Lifetime.{OwnedBy}
use water_rs.Compat.Hangup.{Hears, drop-Hears}
use water_rs.Compat.{channel, try_recv}
use water_rs.Compat.Channel.{Op, put, take, fifo, run, run-fifo}
use water_rs.Compat.Ends.{IsAnswered, try_recv-IsAnswered}
use water_rs.Samples.{Point, point_layout, store, store-IsSound, net, endpoint}

abbrev point_typed : Typed Point
point_typed = record { layout = point_layout; type_id = 77 }

abbrev point : ℕ → Point
point n = record { x = n; y = 2 }

-- One more value is asked for than there is.
abbrev ops : List (Op Point)
ops = take ∷ put (point 1) ∷ put (point 3) ∷ take ∷ put (point 5) ∷ take ∷ take ∷ take ∷ []

run-fifo_example :
    let (net', sender, receiver) = channel endpoint in
    (net'' : Net) × (s : Store) × (run point_typed sender receiver ops net' store
      ≡ done ((net'', fifo ops []), s))
run-fifo_example = run-fifo point_typed ops endpoint store (omega arith) store-IsSound

try_recv-IsAnswered_example : IsAnswered point_typed 1 net store (try_recv point_typed net 1 store)
try_recv-IsAnswered_example = try_recv-IsAnswered point_typed 1 net store store-IsSound

net-OwnedBy : OwnedBy net 1 1
unfolding occurrences
net-OwnedBy = (refl, refl, refl)

drop-Hears_example : (net' : Net) × (drop net 1 ≡ done net') × Hears point_typed 0 net' 0 store
drop-Hears_example = drop-Hears point_typed net 0 1 0 store (omega arith) net-OwnedBy refl
