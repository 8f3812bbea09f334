-- ===== src/Net/Spread.antt =====
-- `Net::send` (src/net.rs): every listed endpoint is offered the message once.
use water_rs.Prelude.{
  ℕ, ◌+◌, ◌≡◌, refl, ◌⊎◌, ◌≢◌, inl, inr, Bool, true, false, List, [], ◌∷◌, done, arith, ap, ◌∙◌,
  length, length-append, if◌then◌else◌, ◌==◌, Bool-cases,
}
use water_rs.Store.{Store, update}
use water_rs.Store.Alias.{update_self, update_ne}
use water_rs.Message.{Message}
use water_rs.Endpoint.{Endpoint, give}
use water_rs.Endpoint.Give.{IsFor, HasRoom, accepted, give_lem}
use water_rs.Net.{Net, set_cell, occurrences, send_loop, send_internal, with_count}
use water_rs.Net.Handles.{Distinct}
use water_rs.Net.Held.{IsHeld, more, less, Counts-length, clone_all-Counts, drop_all-Counts}

-- What an endpoint is after a message was offered to it.
abbrev pub Offered : Endpoint → Message → Store → Endpoint → Type 0
Offered ep msg s ep' =
    (IsFor ep msg × HasRoom ep × (ep' ≡ accepted ep msg s))
    ⊎ (¬ (IsFor ep msg × HasRoom ep) × (ep' ≡ ep))

-- The messages that wait in the listed endpoints.
abbrev pub pending : List ℕ → (ℕ → Endpoint) → ℕ
pending [] cell = 0
pending (e ∷ es) cell = length (cell e).messages.vec + pending es cell

-- The effect of a message on the endpoints `es`.
pub record IsSpread (es : List ℕ) (msg : Message) (s : Store) (cell cell' : ℕ → Endpoint)
    : Type 0 where
  pub listed : (d : ℕ) → occurrences d es ≢ 0 → Offered (cell d) msg s (cell' d)
  pub others : (d : ℕ) → occurrences d es ≡ 0 → cell' d ≡ cell d

pending-others :
    (e : ℕ) (ep : Endpoint) (es : List ℕ) (cell : ℕ → Endpoint)
    → occurrences e es ≡ 0
    → pending es (update cell e ep) ≡ pending es cell
unfolding occurrences
pending-others e ep [] cell h = refl
pending-others e ep (d ∷ es) cell h = ground (arith, pending-others e ep es cell)

-- One call of `give`: what it answers goes with what it does.
abbrev pub Answers : Endpoint → Message → Store → Endpoint → Bool → Type 0
Answers ep msg s ep' b =
    (IsFor ep msg × HasRoom ep × (ep' ≡ accepted ep msg s) × (b ≡ true))
    ⊎ (¬ (IsFor ep msg × HasRoom ep) × (ep' ≡ ep) × (b ≡ false))

Answers-Offered :
    (ep ep' : Endpoint) (msg : Message) (s : Store) (b : Bool)
    → Answers ep msg s ep' b
    → Offered ep msg s ep'
Answers-Offered ep ep' msg s b (inl (f, r, e, t)) = inl (f, r, e)
Answers-Offered ep ep' msg s b (inr (n, e, t)) = inr (n, e)

Answers-length :
    (ep ep' : Endpoint) (msg : Message) (s : Store) (b : Bool)
    → Answers ep msg s ep' b
    → length ep'.messages.vec ≡ (if b then length ep.messages.vec + 1 else length ep.messages.vec)
Answers-length ep ep' msg s b (inl (f, r, e, t)) =
    rw (e, t) (length-append ep.messages.vec (msg ∷ []))
Answers-length ep ep' msg s b (inr (n, e, t)) = rw (e, t)

pub give-Answers :
    (ep : Endpoint) (msg : Message) (s : Store)
    → (ep' : Endpoint) × (b : Bool) × (give ep msg s ≡ done ((ep', b), s)) × Answers ep msg s ep' b
give-Answers ep msg s = elim (give_lem ep msg s) [
  | inl (f, r, e) ↦ (_, _, e, inl (f, r, refl, refl))
  | inr (n, e) ↦ (_, _, e, inr (n, refl, refl))
]

-- The first endpoint was offered the message, and then the others.
module _ (e : ℕ) (es : List ℕ) (msg : Message) (s : Store) (cell cell' : ℕ → Endpoint)
    (ep' : Endpoint) (apart : occurrences e es ≡ 0) (offered : Offered (cell e) msg s ep')
    (spread : IsSpread es msg s (update cell e ep') cell') where
  first : cell' e ≡ ep'
  first = spread.others e apart ∙ update_self cell e ep'

  listed_later :
      (d : ℕ) → (e == d) ≡ false → occurrences d es ≢ 0 → Offered (cell d) msg s (cell' d)
  listed_later d miss h = rw (update_ne cell e d ep' (ground arith)) at (spread.listed d h)

  IsSpread-cons : IsSpread (e ∷ es) msg s cell cell'
  unfolding occurrences
  IsSpread-cons = record {
    listed = λ d h. elim (Bool-cases (e == d)) [
      | inl hit ↦ let same : e ≡ d = ground arith in rw (← same, first) offered
      | inr miss ↦ listed_later d miss (ground arith)
    ];
    others = λ d h. spread.others d (ground arith) ∙ update_ne cell e d ep' (ground arith);
  }

count_step :
    (b : Bool) (n ocnt l l' p p' : ℕ)
    → l' ≡ (if b then l + 1 else l)
    → n + p ≡ (if b then ocnt + 1 else ocnt) + p'
    → n + (l + p) ≡ ocnt + (l' + p')
count_step true n ocnt l l' p p' h k = omega arith
count_step false n ocnt l l' p p' h k = omega arith

abbrev pub Spreads : List ℕ → Message → Net → ℕ → Store → Type 0
Spreads es msg net ocnt s =
    (cell' : ℕ → Endpoint) × (n : ℕ) × (send_loop es msg net ocnt s
      ≡ done ((record net { cell = cell' }, n), s))
    × IsSpread es msg s net.cell cell'
    × (n + pending es net.cell ≡ ocnt + pending es cell')

pub send_loop-Spreads :
    (es : List ℕ) (msg : Message) (net : Net) (ocnt : ℕ) (s : Store)
    → Distinct es
    → Spreads es msg net ocnt s
unfolding send_loop occurrences
send_loop-Spreads [] msg net ocnt s h =
    (net.cell, ocnt, refl, record { listed = λ d k. absurd (k refl); others = λ d k. refl }, refl)
send_loop-Spreads (e ∷ es) msg net ocnt s h =
    let (ep', b, given, answer) = give-Answers (net.cell e) msg s in
    let (cell', n, run, spread, count) =
      send_loop-Spreads es msg (set_cell net e ep') (if b then ocnt + 1 else ocnt) s h.1 in
    let offered = Answers-Offered (net.cell e) ep' msg s b answer in
    (
      cell',
      n,
      rw given run,
      IsSpread-cons e es msg s net.cell cell' ep' h.0 offered spread,
      count_step b n ocnt _ _ _ _
          (rw (first e es msg s net.cell cell' ep' h.0 offered spread)
            (Answers-length (net.cell e) ep' msg s b answer))
          (rw (pending-others e ep' es net.cell h.0) at count),
    )

-- An endpoint that was offered the message while one more handle was counted.
counted-Offered :
    (ep ep1 ep2 ep3 : Endpoint) (msg : Message) (s : Store)
    → IsHeld ep
    → ep1 ≡ record ep { refcnt = more ep.refcnt }
    → Offered ep1 msg s ep2
    → ep3 ≡ record ep2 { refcnt = less ep2.refcnt }
    → Offered ep msg s ep3
counted-Offered ep ep1 ep2 ep3 msg s held up offered down = elim (rw up at offered) [
  | inl (f, r, e) ↦ inl (
    record { no_loop = f.no_loop; net = f.net; endpoint = f.endpoint },
    record { pending = r.pending; memory = r.memory },
    down
        ∙ ap (λ (x : Endpoint). record x { refcnt = less x.refcnt }) e
        ∙ ap {A = ℕ} (λ n. record (accepted ep msg s) { refcnt = n }) back,
  )
  | inr (no_way, e) ↦ inr (
    λ (f, r). no_way (
      record { no_loop = f.no_loop; net = f.net; endpoint = f.endpoint },
      record { pending = r.pending; memory = r.memory },
    ),
    down
        ∙ ap (λ (x : Endpoint). record x { refcnt = less x.refcnt }) e
        ∙ ap {A = ℕ} (λ n. record ep { refcnt = n }) back,
  )
]
  where
    back : less (more ep.refcnt) ≡ ep.refcnt
    back = omega (arith, held.owned, held.countable)

pending-same :
    (es : List ℕ) (cell cell' : ℕ → Endpoint)
    → ((d : ℕ) → length (cell' d).messages.vec ≡ length (cell d).messages.vec)
    → pending es cell' ≡ pending es cell
pending-same [] cell cell' h = refl
pending-same (e ∷ es) cell cell' h = omega (arith, h e, pending-same es cell cell' h)

-- Offering does not change the count.
Offered-refcnt :
    (ep ep' : Endpoint) (msg : Message) (s : Store) → Offered ep msg s ep' → ep'.refcnt ≡ ep.refcnt
Offered-refcnt ep ep' msg s (inl (f, r, e)) = ap (λ (x : Endpoint). x.refcnt) e
Offered-refcnt ep ep' msg s (inr (n, e)) = ap (λ (x : Endpoint). x.refcnt) e

-- The net lists no endpoint twice, and each of them has an owner outside and a count below 2 ^ 64 - 1;
-- there, the handles for the loop come and go. `send_internal` offers the message to every listed endpoint: those that it is for
-- and that have room take it once, the others and the endpoints that are not listed stay as they were,
-- and so do the list and the counts of handles. It returns the number of messages that were queued, and
-- neither panics nor touches the memory of messages.
pub send_internal-IsSpread :
    (net : Net) (msg : Message) (s : Store)
    → Distinct net.endpoints
    → ((d : ℕ) → occurrences d net.endpoints ≢ 0 → IsHeld (net.cell d))
    → (cell' : ℕ → Endpoint) × (n : ℕ) × (send_internal net msg s
        ≡ done ((record net { cell = cell' }, n), s))
      × IsSpread net.endpoints msg s net.cell cell'
      × (n + pending net.endpoints net.cell ≡ pending net.endpoints cell')
unfolding send_internal with_count
send_internal-IsSpread net msg s h held =
    let es = net.endpoints in
    let (cell1, cloned, up) = clone_all-Counts es net h in
    let (cell2, n, run, spread, count) =
      send_loop-Spreads es msg (record net { cell = cell1 }) 0 s h in
    let (cell3, dropped, down) =
      drop_all-Counts es (record net { cell = cell2 }) h
        (λ d listed e.
          let k = held d listed in
          omega (
            arith,
            e,
            Offered-refcnt (cell1 d) (cell2 d) msg s (spread.listed d listed),
            ap (λ (x : Endpoint). x.refcnt) (up.listed d listed),
            k.owned,
            k.countable,
          )) in
    (
      cell3,
      n,
      rw (cloned, run, dropped),
      record {
        listed = λ d listed.
            counted-Offered (net.cell d) (cell1 d) (cell2 d) (cell3 d) msg s (held d listed)
              (up.listed d listed) (spread.listed d listed) (down.listed d listed);
        others = λ d k. down.others d k ∙ spread.others d k ∙ up.others d k;
      },
      omega (
        arith,
        count,
        pending-same es net.cell cell1 (Counts-length more es net.cell cell1 up),
        pending-same es cell2 cell3 (Counts-length less es cell2 cell3 down),
      ),
    )
