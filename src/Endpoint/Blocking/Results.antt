-- ===== src/Endpoint/Blocking/Results.antt =====
-- What a blocking receiver of src/endpoint.rs returns, and when it goes on waiting.
use water_rs.Prelude.{◌≡◌, refl, ◌⊎◌, inl, inr, Bool, true, false, done, length}
use water_rs.Store.{Store, IsSound}
use water_rs.Message.{Message}
use water_rs.Endpoint.{Endpoint, IoResult, err, ok, timed_out, recv}
use water_rs.Endpoint.Receive.{recv-Takes, Takes}
use water_rs.Endpoint.Blocking.{Mode, forever, timed, Phase, sleeping, returned, resume, or_expire}
use water_rs.Endpoint.Blocking.Moves.{resume-recv}

-- A message, if there is one; else the thread waits again, unless its time is over.
abbrev pub Resumed : Mode → Bool → Endpoint → Store → Endpoint → Phase → Store → Type 0
Resumed mode in_time ep s ep' p t =
    ((msg : Message) × (recv ep s ≡ done ((ep', ok msg), t)) × (p ≡ returned (ok msg)))
    ⊎ ((length ep'.messages.vec ≡ 0) × (p ≡ sleeping mode) × ((mode ≡ forever) ⊎ (in_time ≡ true)))
    ⊎ ((length ep'.messages.vec ≡ 0)
        × (mode ≡ timed)
        × (in_time ≡ false)
        × (p ≡ returned (err (record { code = timed_out }))))

or_expire-Resumed :
    (mode : Mode) (in_time : Bool) (ep ep' : Endpoint) (result : IoResult Message) (s t : Store)
    → recv ep s ≡ done ((ep', result), t)
    → Takes (length ep.messages.vec) (ep', result)
    → Resumed mode in_time ep s ep' (or_expire mode in_time result) t
or_expire-Resumed mode in_time ep ep' (ok msg) s t run h = inl (msg, run, refl)
or_expire-Resumed forever in_time ep ep' (err e) s t run h = inr (inl (h.0, refl, inl refl))
or_expire-Resumed timed true ep ep' (err e) s t run h = inr (inl (h.0, refl, inr refl))
or_expire-Resumed timed false ep ep' (err e) s t run h = inr (inr (h.0, refl, refl, refl))

-- In sound memory, a receiver that comes back from its wait never panics. It returns the message that
-- `recv` finds; without one the queue is empty, and `recvorblock` fails if its time is over, while
-- otherwise, and always for `recvorblockforever`, it waits again.
pub resume-Resumed :
    (mode : Mode) (in_time : Bool) (ep : Endpoint) (s : Store)
    → IsSound s
    → (ep' : Endpoint) × (p : Phase) × (t : Store) × (resume mode in_time ep s ≡ done ((ep', p), t))
      × IsSound t
      × Resumed mode in_time ep s ep' p t
resume-Resumed mode in_time ep s v =
    let (r, t, run, resumed) = resume-recv mode in_time ep s v in
    let (w, taken) = recv-Takes ep r.0 r.1 s t v run in
    (
      r.0,
      or_expire mode in_time r.1,
      t,
      resumed,
      w,
      or_expire-Resumed mode in_time ep r.0 r.1 s t run taken,
    )
