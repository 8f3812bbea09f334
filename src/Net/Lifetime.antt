-- ===== src/Net/Lifetime.antt =====
-- How long an endpoint stays on its net (`Clone` and `Drop` of src/endpoint.rs, `drop_endpoint` of
-- src/net.rs).
use water_rs.Prelude.{
  ℕ, zero, suc, ◌+◌, ◌-◌, ◌%◌, ◌<◌, ◌≡◌, refl, sym, ◌≢◌, true, false, List, [], ◌∷◌, done, arith,
  ap, ◌==◌, not, ◌&&◌, length, ◌∙◌,
}
use water_rs.RawMessage.{usize_mod}
use water_rs.Store.{update}
use water_rs.Store.Alias.{update_self, update_ne}
use water_rs.Endpoint.{Endpoint}
use water_rs.Net.{Net, set_cell, occurrences, remove, clone_endpoint, drop}

-- `k` handles of the endpoint are left outside of the net. While there is one, the net lists the
-- endpoint once and holds one more handle; behind the last one it holds none.
abbrev pub OwnedBy : Net → ℕ → ℕ → Type 0
OwnedBy net e zero =
    ((net.cell e).refcnt ≡ 0) × (occurrences e net.endpoints ≡ 0) × ((net.cell e).dropped ≡ true)
OwnedBy net e (suc k) =
    ((net.cell e).refcnt ≡ k + 2)
    × (occurrences e net.endpoints ≡ 1)
    × ((net.cell e).dropped ≡ false)

-- Every other endpoint is as it was.
pub record SparesOthers (e : ℕ) (net net' : Net) : Type 0 where
  pub cells : (d : ℕ) → d ≢ e → net'.cell d ≡ net.cell d
  pub listed : (d : ℕ) → d ≢ e → occurrences d net'.endpoints ≡ occurrences d net.endpoints

occurrences-remove_self :
    (e : ℕ) (es : List ℕ) → occurrences e es ≡ 1 → occurrences e (remove e es) ≡ 0
unfolding occurrences remove
occurrences-remove_self e [] h = absurd (omega arith)
occurrences-remove_self e (d ∷ es) h = ground (arith, occurrences-remove_self e es)

occurrences-remove_ne :
    (e d : ℕ) (es : List ℕ) → d ≢ e → occurrences d (remove e es) ≡ occurrences d es
unfolding occurrences remove
occurrences-remove_ne e d [] ne = refl
occurrences-remove_ne e d (c ∷ es) ne = ground (arith, occurrences-remove_ne e d es)

pub length-remove :
    (e : ℕ) (es : List ℕ) → occurrences e es ≡ 1 → length (remove e es) + 1 ≡ length es
unfolding occurrences remove
length-remove e [] h = absurd (omega arith)
length-remove e (d ∷ es) h = ground (arith, length-remove e es)

update-SparesOthers :
    (net net' : Net) (e : ℕ) (ep : Endpoint)
    → net'.cell ≡ update net.cell e ep
    → ((d : ℕ) → d ≢ e → occurrences d net'.endpoints ≡ occurrences d net.endpoints)
    → SparesOthers e net net'
update-SparesOthers net net' e ep c l = record {
  cells = λ d ne. ap (λ (f : ℕ → Endpoint). f d) c ∙ update_ne net.cell e d ep (λ x. ne (sym x));
  listed = l;
}

clone-OwnedBy :
    (net : Net) (e k : ℕ)
    → k + 3 < usize_mod
    → OwnedBy net e (suc k)
    → OwnedBy (clone_endpoint net e) e (suc (suc k)) × SparesOthers e net (clone_endpoint net e)
unfolding clone_endpoint
clone-OwnedBy net e k h o = (
  rw (update_self net.cell e _) (omega (arith, o.0), o.1, o.2),
  update-SparesOthers net _ e _ refl (λ d ne. refl),
)

-- One handle fewer, as the field counts it.
abbrev less : ℕ → ℕ
less n = (n + usize_mod - 1) % usize_mod

-- The three writes of the last drop: the count falls, the endpoint is marked, and the net lets go.
module _ (net : Net) (e : ℕ) (o : OwnedBy net e 1) where
  counted : Net
  counted = set_cell net e (record (net.cell e) { refcnt = less (net.cell e).refcnt })

  marked : Net
  marked = set_cell counted e (record (counted.cell e) { dropped = true })

  let_go : Net
  let_go =
      record (set_cell marked e (record (marked.cell e) { refcnt = less (marked.cell e).refcnt })) {
        endpoints = remove e net.endpoints;
      }

  counted_refcnt : (counted.cell e).refcnt ≡ 1
  unfolding counted
  counted_refcnt = rw (update_self net.cell e _) (omega (arith, o.0))

  marked_refcnt : (marked.cell e).refcnt ≡ 1
  unfolding marked
  marked_refcnt = rw (update_self counted.cell e _) counted_refcnt

  marked_dropped : (marked.cell e).dropped ≡ true
  unfolding marked
  marked_dropped = rw (update_self counted.cell e _)

  let_go-OwnedBy : OwnedBy let_go e 0
  unfolding let_go
  let_go-OwnedBy =
      rw (update_self marked.cell e _)
        (omega (arith, marked_refcnt), occurrences-remove_self e net.endpoints o.1, marked_dropped)

  let_go-SparesOthers : SparesOthers e net let_go
  unfolding let_go marked counted
  let_go-SparesOthers = record {
    cells = λ d ne. let miss : (e == d) ≡ false = ground arith in rw miss;
    listed = λ d ne. occurrences-remove_ne e d net.endpoints ne;
  }

  drop_last : drop net e ≡ done let_go
  unfolding drop let_go marked counted
  drop_last = rw (last, o.1)
    where
      last : (less (net.cell e).refcnt == 1 && not (net.cell e).dropped) ≡ true
      last = ground (arith, o.0, o.2)

drop_other :
    (net : Net) (e k : ℕ)
    → k + 3 < usize_mod
    → OwnedBy net e (suc (suc k))
    → (net' : Net) × (drop net e ≡ done net') × OwnedBy net' e (suc k) × SparesOthers e net net'
unfolding drop
drop_other net e k h o = (
  counted,
  rw many,
  (rw (update_self net.cell e (record (net.cell e) { refcnt = less (net.cell e).refcnt }))
      (omega (arith, o.0), o.1, o.2)),
  update-SparesOthers net counted e (record (net.cell e) { refcnt = less (net.cell e).refcnt }) refl
      (λ d ne. refl),
)
  where
    counted : Net
    counted = set_cell net e (record (net.cell e) { refcnt = less (net.cell e).refcnt })

    many : (less (net.cell e).refcnt == 1 && not (net.cell e).dropped) ≡ false
    many = ground (arith, o.0)

-- What is left of the list of the net.
pub drop_last-endpoints :
    (net : Net) (e : ℕ)
    → OwnedBy net e 1
    → (net' : Net) × (drop net e ≡ done net') × (net'.endpoints ≡ remove e net.endpoints)
drop_last-endpoints net e o = (let_go net e o, drop_last net e o, unfold let_go in refl)

pub drop_other-endpoints :
    (net : Net) (e k : ℕ)
    → k + 3 < usize_mod
    → OwnedBy net e (suc (suc k))
    → (net' : Net) × (drop net e ≡ done net') × (net'.endpoints ≡ net.endpoints)
unfolding drop
drop_other-endpoints net e k h o =
    let many : (less (net.cell e).refcnt == 1 && not (net.cell e).dropped) ≡ false =
      ground (arith, o.0) in
    (set_cell net e (record (net.cell e) { refcnt = less (net.cell e).refcnt }), rw many, refl)

-- As long as its net lists an endpoint once and the count of its handles is below 2 ^ 64 - 2,
-- every clone and drop of a handle keeps that count. The endpoint leaves the net with its last
-- handle outside, which also takes the handle of the net, and not before. No other endpoint
-- changes, and nothing panics.
pub clone-drop-OwnedBy :
    (net : Net) (e k : ℕ)
    → k + 3 < usize_mod
    → OwnedBy net e (suc k)
    → OwnedBy (clone_endpoint net e) e (suc (suc k))
      × SparesOthers e net (clone_endpoint net e)
      × ((net' : Net) × (drop net e ≡ done net') × OwnedBy net' e k × SparesOthers e net net')
clone-drop-OwnedBy net e zero h o = (
  (clone-OwnedBy net e 0 h o).0,
  (clone-OwnedBy net e 0 h o).1,
  (let_go net e o, drop_last net e o, let_go-OwnedBy net e o, let_go-SparesOthers net e o),
)
clone-drop-OwnedBy net e (suc k) h o = (
  (clone-OwnedBy net e (suc k) h o).0,
  (clone-OwnedBy net e (suc k) h o).1,
  drop_other net e k (omega arith) o,
)
