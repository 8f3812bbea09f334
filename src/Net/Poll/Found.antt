-- ===== src/Net/Poll/Found.antt =====
-- What the function `recv` over a list of endpoints (src/endpoint.rs) finds.
use water_rs.Prelude.{
  ℕ, ◌≤◌, ◌<◌, ◌≡◌, refl, ap, ◌∙◌, ◌≢◌, ◌⊎◌, inl, inr, Bool-cases, true, false, List, [], ◌∷◌, ◌++◌,
  done, arith, length, length-append, ◌==◌,
}
use water_rs.Store.{Store, IsSound}
use water_rs.Store.Alias.{update_self, update_ne, update_at}
use water_rs.Message.{Message}
use water_rs.Endpoint
use water_rs.Endpoint.{Endpoint, IoResult, err, ok, no_messages, timed_out}
use water_rs.Endpoint.Receive.{Received, is_stale, delivered, recv-Received, recv-Takes, Takes}
use water_rs.Net.{Net, set_cell, recv, endpoint_recv, occurrences}

abbrev pub queued : Net → ℕ → ℕ
queued net d = length (net.cell d).messages.vec

abbrev AllStale : List Message → Store → Type 0
AllStale [] s = Unit {0}
AllStale (m ∷ ms) s = (is_stale m s ≡ true) × AllStale ms s

-- The first message of a queue that nobody has taken.
abbrev pub IsFirst : Message → List Message → Store → Type 0
IsFirst m q s =
    (before after : List Message) × (q ≡ before ++ (m ∷ after))
    × AllStale before s
    × (is_stale m s ≡ false)

-- A message is what a receiver gets of the first in the queue of a listed endpoint that nobody has
-- taken, and this queue is shorter now; without one, the queues of all listed endpoints are empty.
abbrev pub IsFound : List ℕ → Net → Store → Net → IoResult Message → Type 0
IsFound es net s net' (ok msg) =
    (d : ℕ) × (m : Message) × (occurrences d es ≢ 0)
    × (queued net' d < queued net d)
    × IsFirst m (net.cell d).messages.vec s
    × (msg ≡ delivered m s)
IsFound es net s net' (err e) =
    (e ≡ record { code = no_messages }) × ((d : ℕ) → occurrences d es ≢ 0 → queued net' d ≡ 0)

-- No queue grows, and no other endpoint changes.
pub record IsPolled (es : List ℕ) (net : Net) (s : Store) (net' : Net) (result : IoResult Message)
    : Type 0 where
  pub others : (d : ℕ) → occurrences d es ≡ 0 → net'.cell d ≡ net.cell d
  pub shrinks : (d : ℕ) → queued net' d ≤ queued net d
  pub found : IsFound es net s net' result

abbrev pub Polls : List ℕ → Net → Store → Type 0
Polls es net s =
    (net' : Net) × (result : IoResult Message) × (t : Store) × (recv es net s
      ≡ done ((net', result), t))
    × IsSound t
    × IsPolled es net s net' result

taken_less :
    (net : Net) (e d : ℕ) (ep : Endpoint)
    → length ep.messages.vec ≤ queued net e
    → queued (set_cell net e ep) d ≤ queued net d
taken_less net e d ep h = ground (arith, h)

listed_cons : (d e : ℕ) (es : List ℕ) → occurrences d es ≢ 0 → occurrences d (e ∷ es) ≢ 0
unfolding occurrences
listed_cons d e es h = ground (arith, h)

listed_head : (e : ℕ) (es : List ℕ) → occurrences e (e ∷ es) ≢ 0
unfolding occurrences
listed_head e es = ground arith

listed_tail : (d e : ℕ) (es : List ℕ) → occurrences d (e ∷ es) ≢ 0 → occurrences d es ≡ 0 → e ≡ d
unfolding occurrences
listed_tail d e es h k = ground (arith, h, k)

not_listed : (d e : ℕ) (es : List ℕ) → occurrences d (e ∷ es) ≡ 0 → (e ≢ d) × (occurrences d es ≡ 0)
unfolding occurrences
not_listed d e es h = ground (arith, h)

not_in_empty : (m : Message) (q : List Message) (s : Store) → length q ≡ 0 → ¬ IsFirst m q s
not_in_empty m q s h (before, after, e, stale, live) =
    omega (arith, ap length e, length-append before (m ∷ after), h)

-- What is queued behind an endpoint that has no message was queued before.
still_there :
    (net : Net) (e d : ℕ) (ep : Endpoint) (m : Message) (s : Store)
    → length ep.messages.vec ≡ 0
    → IsFirst m ((set_cell net e ep).cell d).messages.vec s
    → IsFirst m (net.cell d).messages.vec s
still_there net e d ep m s none_left there = elim (Bool-cases (e == d)) [
  | inl hit ↦ absurd (not_in_empty m ep.messages.vec s none_left (rw hit at there))
  | inr miss ↦ rw miss at there
]

-- The message that one call of `recv` hands out, or that it leaves the memory as it was.
abbrev IsSource : List Message → Store → Endpoint × IoResult Message → Store → Type 0
IsSource q s (ep, ok msg) t = (m : Message) × IsFirst m q s × (msg ≡ delivered m s)
IsSource q s (ep, err e) t = t ≡ s

IsSource-cons :
    (x : Message) (q : List Message) (s : Store) (r : Endpoint × IoResult Message) (t : Store)
    → is_stale x s ≡ true
    → IsSource q s r t
    → IsSource (x ∷ q) s r t
IsSource-cons x q s (ep, ok msg) t h (m, (before, after, e, stale, live), same) =
    (m, (x ∷ before, after, ap (λ l. x ∷ l) e, (h, stale), live), same)
IsSource-cons x q s (ep, err e) t h same = same

Received-IsSource :
    (q : List Message) (ep : Endpoint) (s : Store) (r : Endpoint × IoResult Message) (t : Store)
    → Received q ep s r t
    → IsSource q s r t
Received-IsSource [] ep s r t (er, et) = rw er et
Received-IsSource (m ∷ rest) ep s r t (inl (stale, got)) =
    IsSource-cons m rest s r t stale (Received-IsSource rest _ s r t got)
Received-IsSource (m ∷ rest) ep s r t (inr (live, er, et)) =
    rw er (m, ([], rest, refl, tt, live), refl)

-- What is found behind an endpoint without a message.
behind_empty :
    (e : ℕ) (es : List ℕ) (net net' : Net) (ep : Endpoint) (s : Store) (result : IoResult Message)
    → length ep.messages.vec ≡ 0
    → IsPolled es (set_cell net e ep) s net' result
    → IsFound (e ∷ es) net s net' result
behind_empty e es net net' ep s (ok msg) none_left polled =
    let (d, m, listed, less, there, same) = polled.found in
    (
      d,
      m,
      listed_cons d e es listed,
      omega (arith, less, taken_less net e d ep (omega (arith, none_left))),
      still_there net e d ep m s none_left there,
      same,
    )
behind_empty e es net net' ep s (err x) none_left polled =
    let (why, empty) = polled.found in
    (why, λ d listed. at d listed (eq_cases (occurrences d es) 0))
  where
    eq_cases : (a b : ℕ) → (a ≡ b) ⊎ (a ≢ b)
    eq_cases a b = ground arith

    at :
        (d : ℕ)
        → occurrences d (e ∷ es) ≢ 0
        → (occurrences d es ≡ 0) ⊎ (occurrences d es ≢ 0)
        → queued net' d ≡ 0
    at d listed (inr again) = polled.found.1 d again
    at d listed (inl last) =
        ap (λ c. length c.messages.vec)
          (polled.others d last ∙ update_at net.cell e d ep (listed_tail d e es listed last))
        ∙ none_left

poll_head :
    (e : ℕ) (es : List ℕ) (net : Net) (s : Store) (r : Endpoint × IoResult Message) (t : Store)
    → Endpoint.recv (net.cell e) s ≡ done (r, t)
    → IsSound t
    → Takes (queued net e) r
    → IsSource (net.cell e).messages.vec s r t
    → ((net' : Net) → Polls es net' t)
    → Polls (e ∷ es) net s
unfolding recv endpoint_recv occurrences Endpoint.is_ok
poll_head e es net s (ep, ok msg) t run v taken (m, there, same) later = (
  set_cell net e ep,
  ok msg,
  t,
  rw run,
  v,
  record {
    others = λ d h. update_ne net.cell e d ep (not_listed d e es h).0;
    shrinks = λ d. taken_less net e d ep (omega (arith, taken));
    found = (e, m, listed_head e es, rw (update_self net.cell e ep) taken, there, same);
  },
)
poll_head e es net s (ep, err x) t run v (none_left, why) kept later =
    let (net', result, u, rest, w, later_polled) = later (set_cell net e ep) in
    let polled : IsPolled es (set_cell net e ep) s net' result = rw kept at later_polled in
    (
      net',
      result,
      u,
      rw (run, rest),
      w,
      record {
        others = λ d h.
            let (ne, absent) = not_listed d e es h in
            polled.others d absent ∙ update_ne net.cell e d ep ne;
        shrinks =
            λ d. omega (arith, polled.shrinks d, taken_less net e d ep (omega (arith, none_left)));
        found = behind_empty e es net net' ep s result none_left polled;
      },
    )

-- The function `recv` over a list of endpoints never panics on sound memory, which stays sound. It
-- returns a message, and then the queue of a listed endpoint is shorter, or it fails with `NoMessages`,
-- and then the queues of all listed endpoints are empty behind it. No queue grows, and endpoints that
-- are not listed do not change.
pub recv-IsPolled : (es : List ℕ) (net : Net) (s : Store) → IsSound s → Polls es net s
unfolding recv occurrences
recv-IsPolled [] net s v = (
  net,
  err (record { code = no_messages }),
  s,
  refl,
  v,
  record {
    others = λ d h. refl;
    shrinks = λ d. omega arith;
    found = (refl, λ d listed. absurd (listed refl));
  },
)
recv-IsPolled (e ∷ es) net s v =
    let (r, t, run, got) = recv-Received (net.cell e) s v in
    let (w, taken) = recv-Takes (net.cell e) r.0 r.1 s t v run in
    poll_head e es net s r t run w taken
      (Received-IsSource (net.cell e).messages.vec (net.cell e) s r t got)
      (λ net'. recv-IsPolled es net' t w)
