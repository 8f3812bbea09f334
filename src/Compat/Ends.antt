-- ===== src/Compat/Ends.antt =====
-- `try_recv` of src/compat.rs returns: its loop takes a message out of the queue in every round but
-- the last.
use water_rs.Prelude.{
  ℕ, zero, suc, ◌≤◌, ◌<◌, ◌≡◌, refl, ◌⊎◌, inl, inr, true, false, Bool-cases, Option, some, Outcome,
  done, panicked, undefined, arith, length,
}
use water_rs.Store.{Store, IsSound}
use water_rs.Store.Alias.{update_self}
use water_rs.SyncMessage.{Typed}
use water_rs.Message
use water_rs.Message.{Message}
use water_rs.Endpoint
use water_rs.Endpoint.{Endpoint, IoResult, IoError}
use water_rs.Endpoint.Receive.{recv-Received, recv-Takes, Takes}
use water_rs.Net
use water_rs.Net.{Net, set_cell}
use water_rs.Compat.{Result, ok, err, TryRecvError, empty, instance_of, try_recv, try_recv_loop}

Takes-weaken : (r : Endpoint × IoResult Message) (n m : ℕ) → n ≤ m → Takes n r → Takes m r
Takes-weaken (ep, IoResult.ok msg) n m h taken = omega (arith, taken)
Takes-weaken (ep, IoResult.err e) n m h taken = taken

-- How a call ends that receives at `ep`, without a bound on its rounds: one `recv` after the other, up
-- to the first message that is a value of the type.
pub data IsAnswered {T : Type 0} (ty : Typed T) (ep : ℕ)
    : Net → Store → Outcome ((Net × Option (Result T TryRecvError)) × Store) → Type 0 where
  -- nothing is left: `Empty`
  finds_none :
      {net : Net} {s t : Store} {ep' : Endpoint} {e : IoError}
      → Endpoint.recv (net.cell ep) s ≡ done ((ep', IoResult.err e), t)
      → length ep'.messages.vec ≡ 0
      → IsAnswered ty ep net s (done ((set_cell net ep ep', some (err empty)), t))
  -- a raw message, or one of another type, is gone
  skips :
      {net : Net} {s t : Store} {ep' : Endpoint} {msg : Message}
      {o : Outcome ((Net × Option (Result T TryRecvError)) × Store)}
      → Endpoint.recv (net.cell ep) s ≡ done ((ep', IoResult.ok msg), t)
      → (Message.is_raw msg ≡ true) ⊎ (Message.is_type ty msg ≡ false)
      → IsAnswered ty ep (set_cell net ep ep') t o
      → IsAnswered ty ep net s o
  -- a value of the type is the answer
  answers :
      {net : Net} {s t u : Store} {ep' : Endpoint} {msg : Message} {v : T}
      → Endpoint.recv (net.cell ep) s ≡ done ((ep', IoResult.ok msg), t)
      → Message.is_raw msg ≡ false
      → Message.is_type ty msg ≡ true
      → Message.typeunwrap ty msg t ≡ done (v, u)
      → IsAnswered ty ep net s (done ((set_cell net ep ep', some (ok v)), u))
  -- it cannot be read
  panics :
      {net : Net} {s t : Store} {ep' : Endpoint} {msg : Message}
      → Endpoint.recv (net.cell ep) s ≡ done ((ep', IoResult.ok msg), t)
      → Message.is_raw msg ≡ false
      → Message.is_type ty msg ≡ true
      → Message.typeunwrap ty msg t ≡ panicked
      → IsAnswered ty ep net s panicked
  reads_outside :
      {net : Net} {s t : Store} {ep' : Endpoint} {msg : Message}
      → Endpoint.recv (net.cell ep) s ≡ done ((ep', IoResult.ok msg), t)
      → Message.is_raw msg ≡ false
      → Message.is_type ty msg ≡ true
      → Message.typeunwrap ty msg t ≡ undefined
      → IsAnswered ty ep net s undefined

module _ {T : Type 0} (ty : Typed T) (ep : ℕ) where
  -- Fewer messages wait than rounds are left.
  abbrev Ends : ℕ → Type 0
  Ends fuel =
      (net : Net) (s : Store)
      → IsSound s
      → length (net.cell ep).messages.vec < fuel
      → IsAnswered ty ep net s (try_recv_loop ty fuel net ep s)

  -- A round that took out a message of the type.
  typed_round :
      (fuel : ℕ) (net : Net) (s t : Store) (ep' : Endpoint) (msg : Message)
      (o : Outcome (T × Store))
      → Endpoint.recv (net.cell ep) s ≡ done ((ep', IoResult.ok msg), t)
      → Message.is_raw msg ≡ false
      → Message.is_type ty msg ≡ true
      → Message.typeunwrap ty msg t ≡ o
      → IsAnswered ty ep net s (try_recv_loop ty (suc fuel) net ep s)
  unfolding try_recv_loop instance_of Net.endpoint_recv
  typed_round fuel net s t ep' msg (done (v, u)) run r k e =
      rw (run, instance_of, r, k, e) (answers run r k e)
  typed_round fuel net s t ep' msg panicked run r k e =
      rw (run, instance_of, r, k, e) (panics run r k e)
  typed_round fuel net s t ep' msg undefined run r k e =
      rw (run, instance_of, r, k, e) (reads_outside run r k e)

  round-Ends :
      (fuel : ℕ) (net : Net) (s : Store) (r : Endpoint × IoResult Message) (t : Store)
      → Ends fuel
      → Endpoint.recv (net.cell ep) s ≡ done (r, t)
      → IsSound t
      → Takes fuel r
      → IsAnswered ty ep net s (try_recv_loop ty (suc fuel) net ep s)
  unfolding try_recv_loop instance_of Net.endpoint_recv
  round-Ends fuel net s (ep', IoResult.err e) t later run v taken = rw run (finds_none run taken.0)
  round-Ends fuel net s (ep', IoResult.ok msg) t later run v taken =
      let again : IsAnswered ty ep (set_cell net ep ep') t
          (try_recv_loop ty fuel (set_cell net ep ep') ep t) =
        later (set_cell net ep ep') t v (rw (update_self net.cell ep ep') taken) in
      elim (Bool-cases (Message.is_raw msg)) [
        | inl r ↦ rw (run, instance_of, r) (skips run (inl r) again)
        | inr r ↦ elim (Bool-cases (Message.is_type ty msg)) [
          | inl k ↦ typed_round fuel net s t ep' msg (Message.typeunwrap ty msg t) run r k refl
          | inr k ↦ rw (run, instance_of, r, k) (skips run (inr k) again)
        ]
      ]

  loop-Ends : (fuel : ℕ) → Ends fuel
  loop-Ends zero net s v h = absurd (omega arith)
  loop-Ends (suc fuel) net s v h =
      let (r, t, run, got) = recv-Received (net.cell ep) s v in
      let (w, taken) = recv-Takes (net.cell ep) r.0 r.1 s t v run in
      round-Ends fuel net s r t (loop-Ends fuel) run w (Takes-weaken r _ fuel (omega arith) taken)

  -- On sound memory `try_recv` comes to an end within one round for each message in the queue and one
  -- more. It receives one message after the other, and skips those that are raw or of another type. It
  -- returns the value of the first message of the type, and panics or reads outside of a buffer exactly
  -- where `typeunwrap` of that message does; it returns `Empty`, and nothing else, when `recv` finds no
  -- further message, and then the queue is empty.
  pub try_recv-IsAnswered :
      (net : Net) (s : Store) → IsSound s → IsAnswered ty ep net s (try_recv ty net ep s)
  unfolding try_recv
  try_recv-IsAnswered net s v =
      loop-Ends (suc (length (net.cell ep).messages.vec)) net s v (omega arith)
