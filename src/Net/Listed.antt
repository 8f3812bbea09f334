-- ===== src/Net/Listed.antt =====
-- What the list of a net (src/net.rs) keeps to while endpoints join, messages are sent and the handles
-- for that come and go.
use water_rs.Prelude.{ℕ, ◌≤◌, ◌≡◌, ◌≢◌, refl, ap, ◌∙◌, List, [], ◌∷◌, ◌++◌, done, arith, inl, inr}
use water_rs.Store.{Store}
use water_rs.Message.{Message}
use water_rs.Endpoint.{Endpoint}
use water_rs.Endpoint.Give.{IsFor, HasRoom}
use water_rs.Net.{
  Net, occurrences, send_loop, send_internal, with_count, clone_all, new_endpoint, enrol, create,
  clone_endpoint, add_endpoint,
}
use water_rs.Net.Handles.{Distinct, Alike, IsAlike, clone_all-IsAlike, drop_all-IsAlike}
use water_rs.Net.Spread.{Offered, send_loop-Spreads}
use water_rs.Net.Enrolment.{occurrences-append}

-- No endpoint is listed twice, and no free cell is listed.
pub record IsListed (net : Net) : Type 0 where
  pub distinct : Distinct net.endpoints
  pub allocated : (d : ℕ) → net.fresh ≤ d → occurrences d net.endpoints ≡ 0

pub IsAlike-IsListed : {net net' : Net} → IsAlike net net' → IsListed net → IsListed net'
IsAlike-IsListed x v = record {
  distinct = x.distinct;
  allocated = λ d h. omega (arith, x.fewer d, v.allocated d (omega (arith, h, x.fresh)));
}

Distinct-append :
    (e : ℕ) (es : List ℕ) → Distinct es → occurrences e es ≡ 0 → Distinct (es ++ (e ∷ []))
unfolding occurrences
Distinct-append e [] h k = (refl, tt)
Distinct-append e (d ∷ es) h k =
    (ground (arith, occurrences-append d e es, h.0), Distinct-append e es h.1 (ground arith))

pub new_endpoint-IsListed : (net : Net) → IsListed net → IsListed (new_endpoint net).0
unfolding new_endpoint enrol create clone_endpoint add_endpoint
new_endpoint-IsListed net v = record {
  distinct =
      Distinct-append net.fresh net.endpoints v.distinct (v.allocated net.fresh (omega arith));
  allocated = λ d h.
      ground (arith, occurrences-append d net.fresh net.endpoints, v.allocated d (omega arith));
}

-- `send_internal` around its loop: the handles are cloned before, and dropped behind it.
pub send_internal-around :
    (net : Net) (msg : Message) (s : Store) (cell' : ℕ → Endpoint) (n : ℕ)
    → Distinct net.endpoints
    → send_loop net.endpoints msg (clone_all net.endpoints net) 0 s
      ≡ done ((record (clone_all net.endpoints net) { cell = cell' }, n), s)
    → (net' : Net) × (send_internal net msg s ≡ done ((net', n), s))
      × IsAlike net (record net' { cell = net.cell })
      × ((d : ℕ) → Alike (cell' d) (net'.cell d))
unfolding send_internal with_count
send_internal-around net msg s cell' n h run =
    let cloned = clone_all net.endpoints net in
    let x = clone_all-IsAlike net.endpoints net h in
    let (net', dropped, y) =
      drop_all-IsAlike net.endpoints (record cloned { cell = cell' }) x.distinct in
    (
      net',
      rw (run, dropped),
      record {
        cells = λ d. refl;
        distinct = y.distinct;
        fewer = λ d. omega (arith, x.fewer d, y.fewer d);
        fresh = y.fresh ∙ x.fresh;
      },
      y.cells,
    )

-- A listed endpoint that the message is for and that has room has it at the end of its queue.
pub send_internal-arrives :
    (net : Net) (msg : Message) (s : Store) (d : ℕ)
    → Distinct net.endpoints
    → occurrences d net.endpoints ≢ 0
    → IsFor (net.cell d) msg
    → HasRoom (net.cell d)
    → (net' : Net) × (n : ℕ) × (send_internal net msg s ≡ done ((net', n), s))
      × ((net'.cell d).messages.vec ≡ (net.cell d).messages.vec ++ (msg ∷ []))
send_internal-arrives net msg s d h listed f r =
    let cloned = clone_all net.endpoints net in
    let x = clone_all-IsAlike net.endpoints net h in
    let (cell', n, run, spread, count) = send_loop-Spreads net.endpoints msg cloned 0 s h in
    let (net', sent, y, same) = send_internal-around net msg s cell' n h run in
    (
      net',
      n,
      sent,
      queue_of (cell' d) (net'.cell d) (same d)
          ∙ taken (cloned.cell d) (cell' d) (x.cells d) (spread.listed d listed)
          ∙ ap {A = List Message} (λ q. q ++ (msg ∷ []))
              (queue_of (net.cell d) (cloned.cell d) (x.cells d)),
    )
  where
    queue_of : (ep ep' : Endpoint) → Alike ep ep' → ep'.messages.vec ≡ ep.messages.vec
    queue_of ep ep' e = ap (λ (x : Endpoint). x.messages.vec) e

    taken :
        (ep1 ep2 : Endpoint)
        → Alike (net.cell d) ep1
        → Offered ep1 msg s ep2
        → ep2.messages.vec ≡ ep1.messages.vec ++ (msg ∷ [])
    taken ep1 ep2 e (inl (f', r', accept)) = ap (λ (x : Endpoint). x.messages.vec) accept
    taken ep1 ep2 e (inr (no_way, keep)) = absurd (
        no_way (
          rw e (record { no_loop = f.no_loop; net = f.net; endpoint = f.endpoint }),
          rw e (record { pending = r.pending; memory = r.memory }),
        ))
