-- ===== src/Endpoint/Blocking/Moves.antt =====
-- What one step of a thread does to the queue and to the number of threads that sleep or are awake
-- (src/endpoint.rs).
use water_rs.Prelude.{
  ℕ, zero, suc, ◌+◌, ◌-◌, ◌≤◌, ◌<◌, ◌≡◌, refl, ap, ◌⊎◌, inl, inr, Bool, true, false, done, arith,
  length, length-append, [], ◌∷◌,
}
use native.Mathlib.Decide.{dec_lt}
use water_rs.Store.{Store, IsSound, update}
use water_rs.Message.{Message}
use water_rs.Endpoint.{Endpoint, IoResult, err, ok, give, recv}
use water_rs.Endpoint.Give.{give_lem, accepted}
use water_rs.Endpoint.Receive.{recv-Received, recv-Takes, Takes}
use water_rs.Endpoint.Blocking.{
  Mode, forever, timed, Phase, sleeping, woken, start, resume, or_sleep, or_expire,
}
use water_rs.Endpoint.Blocking.Threads.{total, sleeps, awake}

total-update_of_le :
    (f : Phase → ℕ) (n : ℕ) (pc : ℕ → Phase) (i : ℕ) (p : Phase)
    → n ≤ i
    → total f n (update pc i p) ≡ total f n pc
total-update_of_le f zero pc i p h = refl
total-update_of_le f (suc n) pc i p h = ground (arith, total-update_of_le f n pc i p)

pub total-update :
    (f : Phase → ℕ) (n : ℕ) (pc : ℕ → Phase) (i : ℕ) (p : Phase)
    → i < n
    → total f n (update pc i p) + f (pc i) ≡ total f n pc + f p
total-update f zero pc i p h = absurd (omega arith)
total-update f (suc n) pc i p h = elim (dec_lt i n) [
  | yes below ↦ ground (arith, total-update f n pc i p below)
  | no last ↦ ground (arith, total-update_of_le f n pc i p)
]

-- What `start` and `resume` leave.
abbrev pub Leaves : Endpoint → Endpoint → Phase → Type 0
Leaves ep ep' p =
    ((sleeps p ≡ 0) × (awake p ≡ 0) × (length ep'.messages.vec < length ep.messages.vec))
    ⊎ ((awake p ≡ 0) × (length ep'.messages.vec ≡ 0))

-- `start` and `resume` are a `recv` and a choice of the phase.
pub start-recv :
    (mode : Mode) (ep : Endpoint) (s : Store)
    → IsSound s
    → (r : Endpoint × IoResult Message) × (t : Store) × (recv ep s ≡ done (r, t))
      × (start mode ep s ≡ done ((r.0, or_sleep mode r.1), t))
unfolding start
start-recv mode ep s v = let (r, t, run, got) = recv-Received ep s v in (r, t, run, rw run)

pub resume-recv :
    (mode : Mode) (in_time : Bool) (ep : Endpoint) (s : Store)
    → IsSound s
    → (r : Endpoint × IoResult Message) × (t : Store) × (recv ep s ≡ done (r, t))
      × (resume mode in_time ep s ≡ done ((r.0, or_expire mode in_time r.1), t))
unfolding resume
resume-recv mode in_time ep s v = let (r, t, run, got) = recv-Received ep s v in (r, t, run, rw run)

or_sleep-Leaves :
    (mode : Mode) (ep ep' : Endpoint) (result : IoResult Message)
    → Takes (length ep.messages.vec) (ep', result)
    → Leaves ep ep' (or_sleep mode result)
or_sleep-Leaves mode ep ep' (ok msg) h = inl (refl, refl, h)
or_sleep-Leaves mode ep ep' (err e) h = inr (refl, h.0)

or_expire-Leaves :
    (mode : Mode) (in_time : Bool) (ep ep' : Endpoint) (result : IoResult Message)
    → Takes (length ep.messages.vec) (ep', result)
    → Leaves ep ep' (or_expire mode in_time result)
or_expire-Leaves mode in_time ep ep' (ok msg) h = inl (refl, refl, h)
or_expire-Leaves forever in_time ep ep' (err e) h = inr (refl, h.0)
or_expire-Leaves timed true ep ep' (err e) h = inr (refl, h.0)
or_expire-Leaves timed false ep ep' (err e) h = inr (refl, h.0)

pub start-Leaves :
    (mode : Mode) (ep ep' : Endpoint) (p : Phase) (s t : Store)
    → IsSound s
    → start mode ep s ≡ done ((ep', p), t)
    → IsSound t × Leaves ep ep' p
start-Leaves mode ep ep' p s t v e =
    let (r, u, run, same) = start-recv mode ep s v in
    let is_ep : r.0 ≡ ep' = cc in
    let is_p : or_sleep mode r.1 ≡ p = cc in
    let is_t : u ≡ t = cc in
    let (w, taken) = recv-Takes ep r.0 r.1 s u v run in
    (rw is_t at w, rw (is_ep, is_p) at (or_sleep-Leaves mode ep r.0 r.1 taken))

pub resume-Leaves :
    (mode : Mode) (in_time : Bool) (ep ep' : Endpoint) (p : Phase) (s t : Store)
    → IsSound s
    → resume mode in_time ep s ≡ done ((ep', p), t)
    → IsSound t × Leaves ep ep' p
resume-Leaves mode in_time ep ep' p s t v e =
    let (r, u, run, same) = resume-recv mode in_time ep s v in
    let is_ep : r.0 ≡ ep' = cc in
    let is_p : or_expire mode in_time r.1 ≡ p = cc in
    let is_t : u ≡ t = cc in
    let (w, taken) = recv-Takes ep r.0 r.1 s u v run in
    (rw is_t at w, rw (is_ep, is_p) at (or_expire-Leaves mode in_time ep r.0 r.1 taken))

-- A thread that ran `start` or `resume` left the queue covered.
pub moved :
    (n i : ℕ) (pc : ℕ → Phase) (p : Phase) (ep ep' : Endpoint) (due : ℕ)
    → i < n
    → sleeps (pc i) ≡ 0
    → awake (pc i) ≤ 1
    → Leaves ep ep' p
    → (total sleeps n pc ≡ 0) ⊎ (length ep.messages.vec ≤ due + total awake n pc)
    → (total sleeps n (update pc i p) ≡ 0)
      ⊎ (length ep'.messages.vec ≤ due + total awake n (update pc i p))
moved n i pc p ep ep' due h quiet one (inl (s, a, fewer)) (inl none_sleeps) =
    inl (omega (arith, total-update sleeps n pc i p h))
moved n i pc p ep ep' due h quiet one (inl (s, a, fewer)) (inr few) =
    inr (omega (arith, total-update awake n pc i p h))
moved n i pc p ep ep' due h quiet one (inr (a, empty)) c = inr (omega arith)

pub fewer :
    (ep ep' : Endpoint) (result : IoResult Message) (a k : ℕ)
    → Takes (length ep.messages.vec) (ep', result)
    → (a ≡ 0) ⊎ (length ep.messages.vec ≤ k)
    → (a ≡ 0) ⊎ (length ep'.messages.vec ≤ k)
fewer ep ep' (ok msg) a k h (inl e) = inl e
fewer ep ep' (ok msg) a k h (inr e) = inr (omega arith)
fewer ep ep' (err e') a k h c = inr (omega (arith, h.0))

-- Waking a thread that sleeps covers one more message.
pub waking :
    (n i k l : ℕ) (pc : ℕ → Phase) (mode : Mode) (in_time : Bool)
    → i < n
    → pc i ≡ sleeping mode
    → (total sleeps n pc ≡ 0) ⊎ (l ≤ k + total awake n pc)
    → suc l ≤ k + total awake n (update pc i (woken mode in_time))
waking n i k l pc mode in_time h at_i (inl none_sleeps) =
    absurd (omega (arith, total-update sleeps n pc i (woken mode in_time) h, ap sleeps at_i))
waking n i k l pc mode in_time h at_i (inr few) =
    omega (arith, total-update awake n pc i (woken mode in_time) h, ap awake at_i)

-- `give` queues at most as many messages as it calls `notify_one`.
pub give-grows :
    (ep ep' : Endpoint) (msg : Message) (b : Bool) (s u : Store)
    → give ep msg s ≡ done ((ep', b), u)
    → (s ≡ u) × (length ep'.messages.vec ≤ length ep.messages.vec + (ep'.notified - ep.notified))
give-grows ep ep' msg b s u e = elim (give_lem ep msg s) [
  | inl (f, room, e') ↦
      let is_ep : accepted ep msg s ≡ ep' = cc in
      (cc, rw (← is_ep) (omega (arith, length-append ep.messages.vec (msg ∷ []))))
  | inr (no_way, e') ↦ let is_ep : ep ≡ ep' = cc in (cc, rw (← is_ep) (omega arith))
]
