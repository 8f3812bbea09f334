-- ===== src/Endpoint/Blocking/Tests.antt =====
-- Runs of the theorems on the blocking receivers of src/endpoint.rs.
use water_rs.Prelude.{ℕ, suc, ◌<◌, ◌≡◌, refl, ◌⊎◌, true, false, done, arith}
use water_rs.Store.{Store, IsSound, update}
use water_rs.Message
use water_rs.Endpoint.{Endpoint, give}
use water_rs.Endpoint.Give.{accepted}
use water_rs.Endpoint.Blocking.{Phase, forever, timed, starting, sleeping, woken, start, resume}
use water_rs.Endpoint.Blocking.Threads.{Threads, Step, Reach, here, later, gives, starts, awake}
use water_rs.Endpoint.Blocking.Wake.{IsCovered, Reach-IsCovered, Reach-progress}
use water_rs.Endpoint.Blocking.Results.{Resumed, resume-Resumed}
use water_rs.Samples.{store, store-IsSound, raw_message, endpoint}

-- Two receivers, before their first look.
abbrev at_first : Threads
at_first = record { ep = endpoint 5; store = store; due = 0; pc = λ i. starting forever }

-- The first sleeps.
abbrev asleep : Threads
asleep = record at_first { pc = update at_first.pc 0 (sleeping forever) }

-- A message has come.
abbrev given : Threads
given = record asleep { ep = accepted asleep.ep raw_message store; due = 1 }

at_first-given : Reach 2 at_first given
unfolding start give Message.is_sync
at_first-given =
    later (later here (starts 0 (omega arith) refl refl)) (gives raw_message {b = true} refl)

Reach-IsCovered_example : IsCovered 2 given
Reach-IsCovered_example = Reach-IsCovered 2 at_first given store-IsSound refl at_first-given

Reach-progress_example :
    ((due : ℕ) × (given.due ≡ suc due)
      × Step 2 given (record given { due = due; pc = update given.pc 0 (woken forever true) }))
    ⊎ ((j : ℕ) × (u : Threads) × (j < 2)
        × (awake (given.pc j) ≡ 1)
        × Step 2 given u
        × (awake (u.pc j) ≡ 0))
Reach-progress_example =
    Reach-progress 2 at_first given 0 forever store-IsSound refl at_first-given (omega arith) refl
      (omega arith)

resume-Resumed_example :
    (ep' : Endpoint) × (p : Phase) × (t : Store) × (resume timed false (endpoint 5) store
      ≡ done ((ep', p), t))
    × IsSound t
    × Resumed timed false (endpoint 5) store ep' p t
resume-Resumed_example = resume-Resumed timed false (endpoint 5) store store-IsSound
