-- ===== src/Endpoint/Blocking/Wake.antt =====
-- No wake-up is lost between `give` and the receivers that block (src/endpoint.rs).
use water_rs.Prelude.{
  ◌∙◌, ℕ, zero, suc, ◌+◌, ◌≤◌, ◌<◌, ◌≡◌, refl, ap, ◌⊎◌, inl, inr, Bool, true, false, arith, length,
}
use water_rs.Store.{IsSound, update}
use water_rs.Message.{Message}
use water_rs.Endpoint.{IoResult, err, ok}
use water_rs.Endpoint.Receive.{recv-Takes}
use water_rs.Endpoint.Blocking.{
  Mode, forever, timed, Phase, starting, sleeping, woken, returned, or_expire,
}
use water_rs.Endpoint.Blocking.Threads.{
  Threads, total, sleeps, awake, Step, Reach, here, later, gives, notifies, notifies_none, wakes,
  starts, resumes, polls, elsewhere,
}
use water_rs.Store.Alias.{update_self}
use water_rs.Endpoint.Blocking.Moves.{
  total-update, start-Leaves, resume-recv, resume-Leaves, moved, fewer, waking, give-grows,
}

-- Either nobody sleeps, or every queued message has a `notify_one` to come or a thread that is awake.
pub record IsCovered (n : ℕ) (s : Threads) : Type 0 where
  pub sound : IsSound s.store
  pub covered : (total sleeps n s.pc ≡ 0) ⊎ (length s.ep.messages.vec ≤ s.due + total awake n s.pc)

Step-IsCovered : (n : ℕ) (s t : Threads) → Step n s t → IsCovered n s → IsCovered n t
Step-IsCovered n s t (gives msg {ep'} {b} {u} e) v =
    let (same, grows) = give-grows s.ep ep' msg b s.store u e in
    record { sound = rw same at v.sound; covered = ground (arith, v.covered) }
Step-IsCovered n s t (notifies i {mode} {due} h at_i d) v = record {
  sound = v.sound;
  covered = inr (omega (arith, waking n i s.due _ s.pc mode true h at_i v.covered));
}
Step-IsCovered n s t (notifies_none none_sleeps d) v = record {
  sound = v.sound;
  covered = inl none_sleeps;
}
Step-IsCovered n s t (wakes i {mode} in_time h at_i) v = record {
  sound = v.sound;
  covered = inr (omega (arith, waking n i s.due _ s.pc mode in_time h at_i v.covered));
}
Step-IsCovered n s t (starts i {mode} {ep'} {p} {u} h at_i e) v =
    let (w, left) = start-Leaves mode s.ep ep' p s.store u v.sound e in
    record {
      sound = w;
      covered =
          moved n i s.pc p s.ep ep' s.due h (ap sleeps at_i) (omega (arith, ap awake at_i)) left
            v.covered;
    }
Step-IsCovered n s t (resumes i {mode} {in_time} {ep'} {p} {u} h at_i e) v =
    let (w, left) = resume-Leaves mode in_time s.ep ep' p s.store u v.sound e in
    record {
      sound = w;
      covered =
          moved n i s.pc p s.ep ep' s.due h (ap sleeps at_i) (omega (arith, ap awake at_i)) left
            v.covered;
    }
Step-IsCovered n s t (polls {ep'} {result} {u} e) v =
    let (w, taken) = recv-Takes s.ep ep' result s.store u v.sound e in
    record { sound = w; covered = fewer s.ep ep' result _ _ taken v.covered }
Step-IsCovered n s t (elsewhere w) v = record { sound = w; covered = v.covered }

-- Between `give` and the receivers that block no wake-up is lost. From sound memory and receivers of
-- which none sleeps yet, however the threads are interleaved, and whether waits end by a call, by
-- themselves or by time: either no receiver sleeps, or for each message in the queue a call of
-- `notify_one` is still to come or a receiver is awake that has not looked yet. The memory stays
-- sound.
pub Reach-IsCovered :
    (n : ℕ) (s t : Threads)
    → IsSound s.store
    → total sleeps n s.pc ≡ 0
    → Reach n s t
    → IsCovered n t
Reach-IsCovered n s t v quiet here = record { sound = v; covered = inl quiet }
Reach-IsCovered n s t v quiet (later {t = mid} r st) =
    Step-IsCovered n mid t st (Reach-IsCovered n s mid v quiet r)

or_expire-awake :
    (mode : Mode) (in_time : Bool) (result : IoResult Message)
    → awake (or_expire mode in_time result) ≡ 0
or_expire-awake mode in_time (ok msg) = refl
or_expire-awake forever in_time (err e) = refl
or_expire-awake timed true (err e) = refl
or_expire-awake timed false (err e) = refl

-- A thread among the first `n` that is awake.
abbrev Awake : ℕ → (ℕ → Phase) → Type 0
Awake n pc = (j : ℕ) × (mode : Mode) × (in_time : Bool) × (j < n) × (pc j ≡ woken mode in_time)

awake_last :
    (n : ℕ) (pc : ℕ → Phase) (p : Phase)
    → pc n ≡ p
    → (0 < total awake n pc → Awake n pc)
    → 0 < total awake n pc + awake p
    → Awake (suc n) pc
awake_last n pc (woken mode in_time) e earlier h = (n, mode, in_time, omega arith, e)
awake_last n pc (starting mode) e earlier h =
    let (j, mode', in_time, low, at_j) = earlier (omega arith) in
    (j, mode', in_time, omega arith, at_j)
awake_last n pc (sleeping mode) e earlier h =
    let (j, mode', in_time, low, at_j) = earlier (omega arith) in
    (j, mode', in_time, omega arith, at_j)
awake_last n pc (returned result) e earlier h =
    let (j, mode', in_time, low, at_j) = earlier (omega arith) in
    (j, mode', in_time, omega arith, at_j)

find-awake : (n : ℕ) (pc : ℕ → Phase) → 0 < total awake n pc → Awake n pc
find-awake zero pc h = absurd (omega arith)
find-awake (suc n) pc h = awake_last n pc (pc n) refl (find-awake n pc) h

-- While a message is queued, a receiver that sleeps is not stuck. In every state that is reached from
-- sound memory and receivers of which none sleeps, either a call of `notify_one` is still to come,
-- and it can wake this receiver, or another receiver is awake and can run, to the point where it
-- returns or sleeps again.
pub Reach-progress :
    (n : ℕ) (s t : Threads) (i : ℕ) (mode : Mode)
    → IsSound s.store
    → total sleeps n s.pc ≡ 0
    → Reach n s t
    → i < n
    → t.pc i ≡ sleeping mode
    → 0 < length t.ep.messages.vec
    → ((due : ℕ) × (t.due ≡ suc due)
        × Step n t (record t { due = due; pc = update t.pc i (woken mode true) }))
      ⊎ ((j : ℕ) × (u : Threads) × (j < n)
          × (awake (t.pc j) ≡ 1)
          × Step n t u
          × (awake (u.pc j) ≡ 0))
Reach-progress n s t i mode v quiet r h at_i some_queued =
    let w = Reach-IsCovered n s t v quiet r in due_or_awake t.due refl w w.covered
  where
    runs :
        IsCovered n t
        → 0 < total awake n t.pc
        → (j : ℕ) × (u : Threads) × (j < n)
          × (awake (t.pc j) ≡ 1)
          × Step n t u
          × (awake (u.pc j) ≡ 0)
    runs w some_awake =
        let (j, m, in_time, low, at_j) = find-awake n t.pc some_awake in
        let (r', u, run, resumed) = resume-recv m in_time t.ep t.store w.sound in
        (
          j,
          _,
          low,
          ap awake at_j,
          resumes j low at_j resumed,
          ap awake (update_self t.pc j (or_expire m in_time r'.1)) ∙ or_expire-awake m in_time r'.1,
        )

    due_or_awake :
        (due : ℕ)
        → t.due ≡ due
        → IsCovered n t
        → (total sleeps n t.pc ≡ 0) ⊎ (length t.ep.messages.vec ≤ t.due + total awake n t.pc)
        → ((due : ℕ) × (t.due ≡ suc due)
            × Step n t (record t { due = due; pc = update t.pc i (woken mode true) }))
          ⊎ ((j : ℕ) × (u : Threads) × (j < n)
              × (awake (t.pc j) ≡ 1)
              × Step n t u
              × (awake (u.pc j) ≡ 0))
    due_or_awake due e w (inl none_sleeps) =
        absurd (omega (arith, total-update sleeps n t.pc i (woken mode true) h, ap sleeps at_i))
    due_or_awake (suc due) e w (inr few) = inl (due, e, notifies i h at_i e)
    due_or_awake zero e w (inr few) = inr (runs w (omega arith))
