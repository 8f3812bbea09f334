-- ===== src/Net/Poll/Waits.antt =====
-- `recvorblock` over a list of endpoints (src/endpoint.rs) comes back.
use water_rs.Prelude.{
  ℕ, ◌≡◌, ◌⊎◌, inl, inr, Bool-cases, true, false, List, [], ◌∷◌, some, done, arith,
}
use water_rs.Store.{Store, IsSound, M}
use water_rs.Message.{Message}
use water_rs.Endpoint.{IoError, IoResult, err, ok, timed_out}
use water_rs.Net.{Net, recv}
use water_rs.Net.Poll.{Round, recvorblock}
use water_rs.Net.Poll.Found.{IsPolled, recv-IsPolled}

-- What other threads do does not fail and keeps the memory sound.
abbrev pub IsSafe : (Net → M Net) → Type 0
IsSafe others =
    (net : Net) (s : Store)
    → IsSound s
    → (net' : Net) × (s' : Store) × (others net s ≡ done (net', s')) × IsSound s'

abbrev pub AllSafe : List Round → Type 0
AllSafe [] = Unit {0}
AllSafe (round ∷ rounds) = IsSafe round.others × AllSafe rounds

-- The clock passes the end of the wait in one of these rounds.
abbrev pub HasLate : List Round → Type 0
HasLate [] = ⊥
HasLate (round ∷ rounds) = (round.late ≡ true) ⊎ HasLate rounds

-- Why the wait ends: `recv` finds a message behind what the others did, or nothing, and the time is over;
-- else the next round decides.
pub data IsAwaited (es : List ℕ)
    : List Round → Net → Store → Net → IoResult Message → Store → Type 0 where
  receives :
      {round : Round} {rounds : List Round} {net net1 net2 : Net} {s s1 s2 : Store} {msg : Message}
      → round.others net s ≡ done (net1, s1)
      → recv es net1 s1 ≡ done ((net2, ok msg), s2)
      → IsPolled es net1 s1 net2 (ok msg)
      → IsAwaited es (round ∷ rounds) net s net2 (ok msg) s2
  times_out :
      {round : Round} {rounds : List Round} {net net1 net2 : Net} {s s1 s2 : Store} {e : IoError}
      → round.others net s ≡ done (net1, s1)
      → recv es net1 s1 ≡ done ((net2, err e), s2)
      → IsPolled es net1 s1 net2 (err e)
      → round.late ≡ true
      → IsAwaited es (round ∷ rounds) net s net2 (err (record { code = timed_out })) s2
  waits :
      {round : Round} {rounds : List Round} {net net1 net2 net' : Net} {s s1 s2 t : Store}
      {e : IoError} {answer : IoResult Message}
      → round.others net s ≡ done (net1, s1)
      → recv es net1 s1 ≡ done ((net2, err e), s2)
      → IsPolled es net1 s1 net2 (err e)
      → round.late ≡ false
      → IsAwaited es rounds net2 s2 net' answer t
      → IsAwaited es (round ∷ rounds) net s net' answer t

abbrev pub Awaits : List Round → List ℕ → Net → Store → Type 0
Awaits rounds es net s =
    (net' : Net) × (answer : IoResult Message) × (t : Store) × (recvorblock rounds es net s
      ≡ done ((net', some answer), t))
    × IsSound t
    × IsAwaited es rounds net s net' answer t

next_round-Awaits :
    (es : List ℕ) (round : Round) (rounds : List Round) (result : IoResult Message)
    (net net1 net2 : Net) (s s1 s2 : Store)
    → round.others net s ≡ done (net1, s1)
    → recv es net1 s1 ≡ done ((net2, result), s2)
    → IsSound s2
    → IsPolled es net1 s1 net2 result
    → (round.late ≡ true) ⊎ ((round.late ≡ false) × Awaits rounds es net2 s2)
    → Awaits (round ∷ rounds) es net s
unfolding recvorblock
next_round-Awaits es round rounds (ok msg) net net1 net2 s s1 s2 ran found v polled h =
    (net2, ok msg, s2, rw (recvorblock, ran, found), v, receives ran found polled)
next_round-Awaits es round rounds (err e) net net1 net2 s s1 s2 ran found v polled (inl late) = (
  net2,
  err (record { code = timed_out }),
  s2,
  rw (recvorblock, ran, found, late),
  v,
  times_out ran found polled late,
)
next_round-Awaits es round rounds (err e) net net1 net2 s s1 s2 ran found v polled
      (inr (early, again)) =
    let (net', answer, t, run, w, awaited) = again in
    (
      net',
      answer,
      t,
      rw (recvorblock, ran, found, early) run,
      w,
      waits ran found polled early awaited,
    )

-- As long as what other threads do in between is safe, `recvorblock` over a list of endpoints is back
-- at the latest in the first round behind which its time is over. In each round `recv` looks behind what
-- the others did. Once it finds a message, this is the answer: what a receiver gets of the first message
-- in the queue of a listed endpoint that nobody has taken, and this queue is shorter behind it. Else the
-- answer is `TimedOut` if the time is over, and then nothing is left in the queues of the listed
-- endpoints, and the next round is run if it is not.
pub recvorblock-Awaits :
    (rounds : List Round) (es : List ℕ) (net : Net) (s : Store)
    → IsSound s
    → AllSafe rounds
    → HasLate rounds
    → Awaits rounds es net s
recvorblock-Awaits [] es net s v safe late = absurd late
recvorblock-Awaits (round ∷ rounds) es net s v (safe, all_safe) late =
    let (net1, s1, ran, v1) = safe net s v in
    let (net2, result, s2, found, v2, polled) = recv-IsPolled es net1 s1 v1 in
    let again : (round.late ≡ true) ⊎ ((round.late ≡ false) × Awaits rounds es net2 s2) =
      elim (Bool-cases round.late) [
        | inl now ↦ inl now
        | inr early ↦ inr (
          early,
          recvorblock-Awaits rounds es net2 s2 v2 all_safe
              (elim late [ inl now ↦ absurd (ground (arith, now, early)) | inr later ↦ later ]),
        )
      ] in
    next_round-Awaits es round rounds result net net1 net2 s s1 s2 ran found v2 polled again
