-- ===== src/Endpoint/Blocking/Threads.antt =====
-- The threads around one endpoint (src/endpoint.rs), interleaved in any order: `n` receivers that may
-- block, and others that give messages, receive without blocking, or change the memory of messages.
use water_rs.Prelude.{ℕ, zero, suc, ◌+◌, ◌-◌, ◌<◌, ◌≡◌, Bool, true, done}
use water_rs.Store.{Store, IsSound, update}
use water_rs.Message.{Message}
use water_rs.Endpoint.{Endpoint, IoResult, give, recv}
use water_rs.Endpoint.Blocking.{Mode, Phase, starting, sleeping, woken, returned, start, resume}

-- `due` counts the calls of `notify_one` whose effect is still to come; `notified` of the endpoint is
-- what `wakeonewaiter` counts.
pub record Threads : Type 0 where
  pub ep : Endpoint
  pub store : Store
  pub due : ℕ
  pub pc : ℕ → Phase

-- How many of the first `n` threads count for `f`.
abbrev pub total : (Phase → ℕ) → ℕ → (ℕ → Phase) → ℕ
total f zero pc = 0
total f (suc n) pc = total f n pc + f (pc n)

abbrev pub sleeps : Phase → ℕ
sleeps (starting mode) = 0
sleeps (sleeping mode) = 1
sleeps (woken mode in_time) = 0
sleeps (returned result) = 0

abbrev pub awake : Phase → ℕ
awake (starting mode) = 0
awake (sleeping mode) = 0
awake (woken mode in_time) = 1
awake (returned result) = 0

pub data Step (n : ℕ) (s : Threads) : Threads → Type 0 where
  -- a `give`; as often as it called `wakeonewaiter`, a wake-up is to come
  gives :
      (msg : Message) {ep' : Endpoint} {b : Bool} {u : Store}
      → give s.ep msg s.store ≡ done ((ep', b), u)
      → Step n s (record s { ep = ep'; store = u; due = s.due + (ep'.notified - s.ep.notified) })
  -- it wakes one thread that sleeps
  notifies :
      (i : ℕ) {mode : Mode} {due : ℕ}
      → i < n
      → s.pc i ≡ sleeping mode
      → s.due ≡ suc due
      → Step n s (record s { due = due; pc = update s.pc i (woken mode true) })
  -- or none, when none sleeps
  notifies_none :
      {due : ℕ} → total sleeps n s.pc ≡ 0 → s.due ≡ suc due → Step n s (record s { due = due })
  -- a wait ends by itself, or since its time is over
  wakes :
      (i : ℕ) {mode : Mode} (in_time : Bool)
      → i < n
      → s.pc i ≡ sleeping mode
      → Step n s (record s { pc = update s.pc i (woken mode in_time) })
  starts :
      (i : ℕ) {mode : Mode} {ep' : Endpoint} {p : Phase} {u : Store}
      → i < n
      → s.pc i ≡ starting mode
      → start mode s.ep s.store ≡ done ((ep', p), u)
      → Step n s (record s { ep = ep'; store = u; pc = update s.pc i p })
  resumes :
      (i : ℕ) {mode : Mode} {in_time : Bool} {ep' : Endpoint} {p : Phase} {u : Store}
      → i < n
      → s.pc i ≡ woken mode in_time
      → resume mode in_time s.ep s.store ≡ done ((ep', p), u)
      → Step n s (record s { ep = ep'; store = u; pc = update s.pc i p })
  -- a receiver that does not block
  polls :
      {ep' : Endpoint} {result : IoResult Message} {u : Store}
      → recv s.ep s.store ≡ done ((ep', result), u)
      → Step n s (record s { ep = ep'; store = u })
  -- other endpoints take sync messages and make new ones
  elsewhere : {u : Store} → IsSound u → Step n s (record s { store = u })

pub data Reach (n : ℕ) (s : Threads) : Threads → Type 0 where
  here : Reach n s s
  later : {t u : Threads} → Reach n s t → Step n t u → Reach n s u
