-- ===== src/Net/Handles.antt =====
-- The handles that `send_internal` of src/net.rs clones for its loop and drops behind it (`Clone` and
-- `Drop` of src/endpoint.rs).
use water_rs.Prelude.{
  ℕ, ◌+◌, ◌-◌, ◌%◌, ◌≤◌, ◌≡◌, refl, ap, ◌∙◌, inl, inr, Bool, true, List, [], ◌∷◌, Outcome, done,
  arith, ◌==◌, not, ◌&&◌, Bool-cases,
}
use water_rs.RawMessage.{usize_mod}
use water_rs.Store.{update}
use water_rs.Endpoint.{Endpoint}
use water_rs.Net.{
  Net, set_cell, occurrences, remove, clone_endpoint, drop, drop_endpoint, clone_all, drop_all,
}

-- No endpoint is listed twice.
abbrev pub Distinct : List ℕ → Type 0
Distinct [] = Unit {0}
Distinct (e ∷ es) = (occurrences e es ≡ 0) × Distinct es

-- An endpoint but for the count of its handles and the mark that its last drop leaves.
abbrev pub Alike : Endpoint → Endpoint → Type 0
Alike ep ep' = ep' ≡ record ep { refcnt = ep'.refcnt; dropped = ep'.dropped }

-- What handles that come and go leave of a net: endpoints may leave its list.
pub record IsAlike (net net' : Net) : Type 0 where
  pub cells : (d : ℕ) → Alike (net.cell d) (net'.cell d)
  pub distinct : Distinct net'.endpoints
  pub fewer : (d : ℕ) → occurrences d net'.endpoints ≤ occurrences d net.endpoints
  pub fresh : net'.fresh ≡ net.fresh

occurrences-remove_le : (e d : ℕ) (es : List ℕ) → occurrences d (remove e es) ≤ occurrences d es
unfolding occurrences remove
occurrences-remove_le e d [] = omega arith
occurrences-remove_le e d (c ∷ es) = ground (arith, occurrences-remove_le e d es)

Distinct-remove : (e : ℕ) (es : List ℕ) → Distinct es → Distinct (remove e es)
unfolding remove
Distinct-remove e [] h = tt
Distinct-remove e (d ∷ es) h = elim (Bool-cases (d == e)) [
  | inl hit ↦ rw hit h.1
  | inr miss ↦ rw miss (omega (arith, h.0, occurrences-remove_le e d es), Distinct-remove e es h.1)
]

Distinct-once : (e : ℕ) (es : List ℕ) → Distinct es → occurrences e es ≤ 1
unfolding occurrences
Distinct-once e [] h = omega arith
Distinct-once e (d ∷ es) h = elim (Bool-cases (d == e)) [
  | inl hit ↦
      let same : d ≡ e = ground arith in
      let last : occurrences e es ≡ 0 = rw same at h.0 in rw hit (omega arith)
  | inr miss ↦ rw miss (Distinct-once e es h.1)
]

Alike-update :
    (cell : ℕ → Endpoint) (e : ℕ) (n : ℕ) (b : Bool) (d : ℕ)
    → Alike (cell d) (update cell e (record (cell e) { refcnt = n; dropped = b }) d)
Alike-update cell e n b d = elim (Bool-cases (e == d)) [
  | inl hit ↦
      let same : e ≡ d = ground arith in
      rw hit (ap {A = ℕ} (λ i. record (cell i) { refcnt = n; dropped = b }) same)
  | inr miss ↦ rw miss refl
]

pub same-IsAlike : (net : Net) → Distinct net.endpoints → IsAlike net net
same-IsAlike net h = record {
  cells = λ d. refl;
  distinct = h;
  fewer = λ d. omega arith;
  fresh = refl;
}

pub IsAlike-trans : {a b c : Net} → IsAlike a b → IsAlike b c → IsAlike a c
IsAlike-trans x y = record {
  cells = λ d. let e = x.cells d in let f = y.cells d in cc;
  distinct = y.distinct;
  fewer = λ d. omega (arith, x.fewer d, y.fewer d);
  fresh = y.fresh ∙ x.fresh;
}

set_cell-IsAlike :
    (net : Net) (e n : ℕ) (b : Bool)
    → Distinct net.endpoints
    → IsAlike net (set_cell net e (record (net.cell e) { refcnt = n; dropped = b }))
set_cell-IsAlike net e n b h = record {
  cells = Alike-update net.cell e n b;
  distinct = h;
  fewer = λ d. omega arith;
  fresh = refl;
}

remove-IsAlike :
    (net : Net) (e : ℕ)
    → Distinct net.endpoints
    → IsAlike net (record net { endpoints = remove e net.endpoints })
remove-IsAlike net e h = record {
  cells = λ d. refl;
  distinct = Distinct-remove e net.endpoints h;
  fewer = λ d. occurrences-remove_le e d net.endpoints;
  fresh = refl;
}

abbrev Drops : Net → Outcome Net → Type 0
Drops net o = (net' : Net) × (o ≡ done net') × IsAlike net net'

drop_endpoint-IsAlike :
    (net : Net) (e : ℕ) → Distinct net.endpoints → Drops net (drop_endpoint net e)
unfolding drop_endpoint
drop_endpoint-IsAlike net e h = elim (Bool-cases (occurrences e net.endpoints == 0)) [
  | inl none_listed ↦ (net, rw none_listed, same-IsAlike net h)
  | inr listed ↦
      let once : (occurrences e net.endpoints == 1) ≡ true =
        ground (arith, Distinct-once e net.endpoints h, listed) in
      let counted =
        set_cell net e
          (record (net.cell e) { refcnt = ((net.cell e).refcnt + usize_mod - 1) % usize_mod }) in
      (
        record counted { endpoints = remove e net.endpoints },
        rw (listed, once),
        IsAlike-trans (set_cell-IsAlike net e _ (net.cell e).dropped h)
            (remove-IsAlike counted e h),
      )
]

-- Dropping a handle does not panic, since no endpoint is listed twice.
pub drop-IsAlike : (net : Net) (e : ℕ) → Distinct net.endpoints → Drops net (drop net e)
unfolding drop
drop-IsAlike net e h =
    let less = ((net.cell e).refcnt + usize_mod - 1) % usize_mod in
    let counted = set_cell net e (record (net.cell e) { refcnt = less }) in
    let x : IsAlike net counted = set_cell-IsAlike net e less (net.cell e).dropped h in
    elim (Bool-cases (less == 1 && not (net.cell e).dropped)) [
      | inl last ↦
          let marked = set_cell counted e (record (counted.cell e) { dropped = true }) in
          let y : IsAlike counted marked =
            set_cell-IsAlike counted e (counted.cell e).refcnt true h in
          let (net', run, z) = drop_endpoint-IsAlike marked e h in
          (net', rw last run, IsAlike-trans x (IsAlike-trans y z))
      | inr many ↦ (counted, rw many, x)
    ]

pub clone_all-IsAlike :
    (es : List ℕ) (net : Net) → Distinct net.endpoints → IsAlike net (clone_all es net)
unfolding clone_all clone_endpoint
clone_all-IsAlike [] net h = same-IsAlike net h
clone_all-IsAlike (e ∷ es) net h =
    IsAlike-trans (set_cell-IsAlike net e _ (net.cell e).dropped h)
      (clone_all-IsAlike es (clone_endpoint net e) h)

pub drop_all-IsAlike :
    (es : List ℕ) (net : Net) → Distinct net.endpoints → Drops net (drop_all es net)
unfolding drop_all
drop_all-IsAlike [] net h = (net, refl, same-IsAlike net h)
drop_all-IsAlike (e ∷ es) net h =
    let (net1, run, x) = drop-IsAlike net e h in
    let (net2, rest, y) = drop_all-IsAlike es net1 x.distinct in
    (net2, rw (drop_all, run, rest), IsAlike-trans x y)
