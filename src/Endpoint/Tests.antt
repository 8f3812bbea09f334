-- ===== src/Endpoint/Tests.antt =====
-- Runs of the theorems on src/endpoint.rs.
use water_rs.Prelude.{◌≡◌, ◌<◌, ◌⊎◌, inl, inr, refl, arith, length, true, false, [], ◌∷◌, done}
use water_rs.Store.{Store}
use water_rs.Message
use water_rs.Message.{Message}
use water_rs.Endpoint.{Endpoint, IoResult, give, recv}
use water_rs.Endpoint.Give.{IsFor, HasRoom, accepted, give_lem, give-passes_limit}
use water_rs.Endpoint.Receive.{Received, recv-Received}
use water_rs.Samples.{store, store-IsSound, raw_message, sync_message, endpoint}

give_lem_example :
    (IsFor (endpoint 10) raw_message
      × HasRoom (endpoint 10)
      × (give (endpoint 10) raw_message store
          ≡ done ((accepted (endpoint 10) raw_message store, true), store)))
    ⊎ (¬ (IsFor (endpoint 10) raw_message × HasRoom (endpoint 10))
        × (give (endpoint 10) raw_message store ≡ done ((endpoint 10, false), store)))
give_lem_example = give_lem (endpoint 10) raw_message store

-- A sync message and a raw message wait.
abbrev waiting : Endpoint
waiting = record (endpoint 10) {
  messages = record { vec = sync_message ∷ raw_message ∷ [] };
  memoryused = 6;
}

recv-Received_example :
    (r : Endpoint × IoResult Message) × (t : Store) × (recv waiting store ≡ done (r, t))
    × Received (sync_message ∷ raw_message ∷ []) waiting store r t
recv-Received_example = recv-Received waiting store store-IsSound

-- It may hold one byte.
abbrev narrow : Endpoint
narrow = record (endpoint 10) { limitmemory = 1 }

give-passes_limit_example :
    (ep' : Endpoint) × (give narrow raw_message store ≡ done ((ep', true), store))
    × (length ep'.messages.vec ≡ 1)
    × (ep'.memoryused ≡ 3)
    × (ep'.limitmemory < ep'.memoryused)
unfolding Message.cap
give-passes_limit_example =
    give-passes_limit narrow raw_message store
      (record { no_loop = inr (inl (λ e. omega arith)); net = inl refl; endpoint = inl refl })
      (inr (omega arith)) (omega arith) (omega arith) (omega arith)
