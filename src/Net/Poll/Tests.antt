-- ===== src/Net/Poll/Tests.antt =====
-- Runs of the theorems on receiving from a list of endpoints (src/endpoint.rs).
use water_rs.Prelude.{refl, true, false, List, [], ◌∷◌, inl, inr}
use water_rs.Store.{pure}
use water_rs.Net.Poll.{Round}
use water_rs.Net.Poll.Waits.{IsSafe, Awaits, recvorblock-Awaits}
use water_rs.Samples.{store, store-IsSound, net}

-- Two rounds, the second of which is late.
abbrev rounds : List Round
rounds = record { others = pure; late = false } ∷ record { others = pure; late = true } ∷ []

pure-IsSafe : IsSafe pure
pure-IsSafe net s v = (net, s, refl, v)

recvorblock-Awaits_example : Awaits rounds (1 ∷ 0 ∷ []) net store
recvorblock-Awaits_example =
    recvorblock-Awaits rounds (1 ∷ 0 ∷ []) net store store-IsSound (pure-IsSafe, (pure-IsSafe, tt))
      (inr (inl refl))
