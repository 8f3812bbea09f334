-- ===== src/Net/Once.antt =====
-- Sync messages (src/syncmessage.rs, src/endpoint.rs, src/net.rs): whatever the users of a net do, and
-- in whatever order, a sync message is received at most once.
use water_rs.Prelude.{
  ℕ, ◌+◌, ◌≡◌, refl, inl, inr, Bool, true, false, List, [], ◌∷◌, ◌++◌, done, arith, ap,
  if◌then◌else◌, ◌==◌, Bool-cases,
}
use water_rs.Store.{Store, IsSound, M, pure, ◌>>=◌}
use water_rs.Store.Alias.{after_dup, dup-done, after_dup-IsSound}
use water_rs.Message
use water_rs.Message.{Message, MessagePayload}
use water_rs.Endpoint.{Endpoint, IoResult, err, ok, released}
use water_rs.Endpoint.Receive.{
  after-IsSound, Received, is_stale_payload, delivered_payload, after_payload, recv-Received,
}
use water_rs.Net.Spread.{give-Answers}
use water_rs.Net.Listed.{IsListed, IsAlike-IsListed, new_endpoint-IsListed, send_internal-around}
use water_rs.Net.{
  Net, set_cell, send_loop, send_internal, send, sendas, endpoint_send, endpoint_recv, new_endpoint,
  clone_all,
}

-- What the users of a net do: send as an endpoint, receive at one, join with a new one.
pub data Op : Type 0 where
  sends : ℕ → Message → Op
  receives : ℕ → Op
  joins : Op

abbrev result_list : IoResult Message → List Message
result_list (ok msg) = msg ∷ []
result_list (err e) = []

-- The net behind the operation, and the messages that it handed out.
pub step : Op → Net → M (Net × List Message)
step (sends e msg) net = do (net', n) ← endpoint_send net e msg; pure (net', [])
step (receives e) net = do (net', result) ← endpoint_recv net e; pure (net', result_list result)
step joins net = pure ((new_endpoint net).0, [])

pub run : List Op → Net → M (Net × List Message)
unfolding step
run [] net = pure (net, [])
run (op ∷ ops) net = do
  (net', ms) ← step op net
  (net'', later) ← run ops net'
  pure (net'', ms ++ later)

abbrev holds_payload : ℕ → MessagePayload → ℕ
holds_payload f (MessagePayload.sync y) = if y.valid == f then 1 else 0
holds_payload f (MessagePayload.raw r) = 0
holds_payload f (MessagePayload.clone y) = 0

-- How many of the messages are the sync message with flag `f`.
abbrev pub copies : ℕ → List Message → ℕ
copies f [] = 0
copies f (m ∷ ms) = holds_payload f m.payload + copies f ms

abbrev pub to_ℕ : Bool → ℕ
to_ℕ true = 1
to_ℕ false = 0

-- Every flag that has been cleared stands for one message that was handed out.
abbrev pub Balanced : Store → Store → List Message → Type 0
Balanced s t ms = (f : ℕ) → to_ℕ (t.valid f) + copies f ms ≡ to_ℕ (s.valid f)

copies-append : (f : ℕ) (xs ys : List Message) → copies f (xs ++ ys) ≡ copies f xs + copies f ys
copies-append f [] ys = omega arith
copies-append f (x ∷ xs) ys = omega (arith, copies-append f xs ys)

after-Balanced :
    (p : MessagePayload) (s : Store) (f : ℕ)
    → is_stale_payload p s ≡ false
    → to_ℕ ((after_payload p s).valid f) + holds_payload f (delivered_payload p s)
      ≡ to_ℕ (s.valid f)
after-Balanced (MessagePayload.raw r) s f e = omega arith
after-Balanced (MessagePayload.clone y) s f e = omega arith
after-Balanced (MessagePayload.sync y) s f e = elim (Bool-cases (y.valid == f)) [
  | inl hit ↦
      let same : y.valid ≡ f = ground arith in
      let valid : s.valid f ≡ true = rw (← same) (ground arith) in rw (hit, valid) (omega arith)
  | inr miss ↦ rw miss (omega arith)
]

Received-Balanced :
    (q : List Message) (ep : Endpoint) (s : Store) (r : Endpoint × IoResult Message) (t : Store)
    → IsSound s
    → Received q ep s r t
    → IsSound t × Balanced s t (result_list r.1)
Received-Balanced [] ep s r t v (er, et) = rw (er, et) (v, λ f. omega arith)
Received-Balanced (m ∷ rest) ep s r t v (inl (stale, got)) =
    Received-Balanced rest (released ep rest (Message.cap m s)) s r t v got
Received-Balanced (m ∷ rest) ep s r t v (inr (live, er, et)) =
    rw (er, et) (after-IsSound m.payload s v, λ f. omega (arith, after-Balanced m.payload s f live))

abbrev pub StepsOnce : {A : Type 0} → M (A × List Message) → Store → Type 0
StepsOnce {A} m s =
    (a : A) × (ms : List Message) × (t : Store) × (m s ≡ done ((a, ms), t))
    × IsSound t
    × Balanced s t ms

send_loop-same_store :
    (es : List ℕ) (msg : Message) (net : Net) (ocnt : ℕ) (s : Store)
    → (cell' : ℕ → Endpoint) × (n : ℕ) × (send_loop es msg net ocnt s
        ≡ done ((record net { cell = cell' }, n), s))
unfolding send_loop
send_loop-same_store [] msg net ocnt s = (net.cell, ocnt, refl)
send_loop-same_store (e ∷ es) msg net ocnt s =
    let (ep', b, given, answer) = give-Answers (net.cell e) msg s in
    let (cell', n, sent) =
      send_loop-same_store es msg (set_cell net e ep') (if b then ocnt + 1 else ocnt) s in
    (cell', n, rw given sent)

send_internal-same_store :
    (net : Net) (msg : Message) (s : Store)
    → IsListed net
    → (r : Net × ℕ) × (send_internal net msg s ≡ done (r, s)) × IsListed r.0
send_internal-same_store net msg s l =
    let (cell', n, run) =
      send_loop-same_store net.endpoints msg (clone_all net.endpoints net) 0 s in
    let (net', sent, x, same) = send_internal-around net msg s cell' n l.distinct run in
    let l' = IsAlike-IsListed x l in
    ((net', n), sent, record { distinct = l'.distinct; allocated = l'.allocated })

-- A raw message is copied once for the net, and no flag changes.
send-keeps_flags :
    (p : MessagePayload) (net : Net) (msg : Message) (s : Store)
    → IsListed net
    → IsSound s
    → (r : Net × ℕ) × (t : Store) × (send net (record msg { payload = p }) s ≡ done (r, t))
      × IsSound t
      × ((f : ℕ) → t.valid f ≡ s.valid f)
      × IsListed r.0
unfolding send Message.is_raw Message.dup
send-keeps_flags (MessagePayload.raw r) net msg s l v =
    let copy = record msg { payload = MessagePayload.raw s.next } in
    let (res, sent, l') = send_internal-same_store net copy (after_dup r s) l in
    (res, after_dup r s, rw (dup-done r s v) sent, after_dup-IsSound r s v, λ f. refl, l')
send-keeps_flags (MessagePayload.sync y) net msg s l v =
    let (res, sent, l') =
      send_internal-same_store net (record msg { payload = MessagePayload.sync y }) s l in
    (res, s, sent, v, λ f. refl, l')
send-keeps_flags (MessagePayload.clone y) net msg s l v =
    let (res, sent, l') =
      send_internal-same_store net (record msg { payload = MessagePayload.clone y }) s l in
    (res, s, sent, v, λ f. refl, l')

step-once :
    (op : Op) (net : Net) (s : Store)
    → IsListed net
    → IsSound s
    → (net' : Net) × (ms : List Message) × (t : Store) × (step op net s ≡ done ((net', ms), t))
      × IsSound t
      × Balanced s t ms
      × IsListed net'
unfolding step endpoint_send sendas endpoint_recv
step-once (sends e msg) net s l v =
    let addressed = record msg { srcsid = (net.cell e).sid; srceid = (net.cell e).eid } in
    let (r, t, sent, w, same, l') = send-keeps_flags msg.payload net addressed s l v in
    (r.0, [], t, rw sent, w, λ f. omega (arith, ap to_ℕ (same f)), l')
step-once (receives e) net s l v =
    let (r, t, got, spec) = recv-Received (net.cell e) s v in
    let (w, bal) = Received-Balanced (net.cell e).messages.vec (net.cell e) s r t v spec in
    (
      set_cell net e r.0,
      result_list r.1,
      t,
      rw got,
      w,
      bal,
      record { distinct = l.distinct; allocated = l.allocated },
    )
step-once joins net s l v = (_, [], s, refl, v, λ f. omega arith, new_endpoint-IsListed net l)

-- On a net that lists no endpoint twice and no free cell, any run of sends, receives and joins on sound
-- memory ends without a panic, and hands out each sync message at most once: once if its flag was set
-- before and is cleared now, and never otherwise.
pub run-once :
    (ops : List Op) (net : Net) (s : Store) → IsListed net → IsSound s → StepsOnce (run ops net) s
unfolding run
run-once [] net s l v = (net, [], s, refl, v, λ f. omega arith)
run-once (op ∷ ops) net s l v =
    let (net', ms, t, first, w, bal, l') = step-once op net s l v in
    let (net'', later, u, rest, x, bal') = run-once ops net' t l' w in
    (
      net'',
      ms ++ later,
      u,
      rw (first, rest),
      x,
      λ f. omega (arith, bal f, bal' f, copies-append f ms later),
    )
