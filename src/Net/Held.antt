-- ===== src/Net/Held.antt =====
-- The handles that `send_internal` of src/net.rs clones and drops, where every listed endpoint has a
-- handle outside of the net: the counts are behind it what they were.
use water_rs.Prelude.{
  ℕ, ◌+◌, ◌-◌, ◌%◌, ◌<◌, ◌≡◌, refl, ◌∙◌, ◌≢◌, inl, inr, false, List, [], ◌∷◌, done, arith, ap,
  length, ◌==◌, not, ◌&&◌, Bool-cases,
}
use water_rs.RawMessage.{usize_mod}
use water_rs.Store.{update}
use water_rs.Store.Alias.{update_self, update_ne}
use water_rs.Endpoint.{Endpoint}
use water_rs.Net.{Net, set_cell, occurrences, clone_endpoint, drop, clone_all, drop_all}
use water_rs.Net.Handles.{Distinct}

-- The net has one handle of it and others have one, and there is room for one more.
pub record IsHeld (ep : Endpoint) : Type 0 where
  pub owned : 1 < ep.refcnt
  pub countable : ep.refcnt + 1 < usize_mod

abbrev pub more : ℕ → ℕ
more n = (n + 1) % usize_mod

abbrev pub less : ℕ → ℕ
less n = (n + usize_mod - 1) % usize_mod

-- The counts of the listed endpoints change by `f`, and nothing else.
pub record Counts (f : ℕ → ℕ) (es : List ℕ) (cell cell' : ℕ → Endpoint) : Type 0 where
  pub listed :
      (d : ℕ) → occurrences d es ≢ 0 → cell' d ≡ record (cell d) { refcnt = f (cell d).refcnt }
  pub others : (d : ℕ) → occurrences d es ≡ 0 → cell' d ≡ cell d

pub Counts-length :
    (f : ℕ → ℕ) (es : List ℕ) (cell cell' : ℕ → Endpoint)
    → Counts f es cell cell'
    → (d : ℕ) → length (cell' d).messages.vec ≡ length (cell d).messages.vec
Counts-length f es cell cell' c d = elim (Bool-cases (occurrences d es == 0)) [
  | inl absent ↦ ap (λ (ep : Endpoint). length ep.messages.vec) (c.others d (ground arith))
  | inr listed ↦ ap (λ (ep : Endpoint). length ep.messages.vec) (c.listed d (ground arith))
]

Counts-cons :
    (f : ℕ → ℕ) (e : ℕ) (es : List ℕ) (cell cell' : ℕ → Endpoint)
    → occurrences e es ≡ 0
    → Counts f es (update cell e (record (cell e) { refcnt = f (cell e).refcnt })) cell'
    → Counts f (e ∷ es) cell cell'
unfolding occurrences
Counts-cons f e es cell cell' apart c = record {
  listed = λ d h. elim (Bool-cases (e == d)) [
    | inl hit ↦
        let same : e ≡ d = ground arith in rw (← same) (c.others e apart ∙ update_self cell e _)
    | inr miss ↦
        let kept =
          update_ne cell e d (record (cell e) { refcnt = f (cell e).refcnt }) (ground arith) in
        rw kept at (c.listed d (ground arith))
  ];
  others = λ d h. c.others d (ground arith) ∙ update_ne cell e d _ (ground arith);
}

pub clone_all-Counts :
    (es : List ℕ) (net : Net)
    → Distinct es
    → (cell' : ℕ → Endpoint) × (clone_all es net ≡ record net { cell = cell' })
      × Counts more es net.cell cell'
unfolding clone_all clone_endpoint occurrences
clone_all-Counts [] net h =
    (net.cell, refl, record { listed = λ d k. absurd (k refl); others = λ d k. refl })
clone_all-Counts (e ∷ es) net h =
    let (cell', run, c) = clone_all-Counts es (clone_endpoint net e) h.1 in
    (cell', run, Counts-cons more e es net.cell cell' h.0 c)

drop-held :
    (net : Net) (e : ℕ)
    → less (net.cell e).refcnt ≢ 1
    → drop net e ≡ done (set_cell net e (record (net.cell e) { refcnt = less (net.cell e).refcnt }))
unfolding drop
drop-held net e h =
    let many : (less (net.cell e).refcnt == 1 && not (net.cell e).dropped) ≡ false =
      ground (arith, h) in
    rw many

listed_later :
    (e : ℕ) (es : List ℕ) (net : Net) (ep : Endpoint)
    → occurrences e es ≡ 0
    → ((d : ℕ) → occurrences d (e ∷ es) ≢ 0 → less (net.cell d).refcnt ≢ 1)
    → (d : ℕ) → occurrences d es ≢ 0
    → less (update net.cell e ep d).refcnt ≢ 1
unfolding occurrences
listed_later e es net ep apart held d h =
    let ne : e ≢ d = λ same. h (rw same at apart) in
    rw (update_ne net.cell e d ep ne) (held d (ground arith))

pub drop_all-Counts :
    (es : List ℕ) (net : Net)
    → Distinct es
    → ((d : ℕ) → occurrences d es ≢ 0 → less (net.cell d).refcnt ≢ 1)
    → (cell' : ℕ → Endpoint) × (drop_all es net ≡ done (record net { cell = cell' }))
      × Counts less es net.cell cell'
unfolding drop_all occurrences
drop_all-Counts [] net h held =
    (net.cell, refl, record { listed = λ d k. absurd (k refl); others = λ d k. refl })
drop_all-Counts (e ∷ es) net h held =
    let ep : Endpoint = record (net.cell e) { refcnt = less (net.cell e).refcnt } in
    let dropped = drop-held net e (held e (ground arith)) in
    let (cell', run, c) =
      drop_all-Counts es (set_cell net e ep) h.1 (listed_later e es net ep h.0 held) in
    (cell', rw (drop_all, dropped, run), Counts-cons less e es net.cell cell' h.0 c)
