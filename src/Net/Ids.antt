-- ===== src/Net/Ids.antt =====
-- Endpoint identifiers (`hueid` of src/net.rs): which calls give an endpoint an identifier of its own.
use water_rs.Prelude.{
  ℕ, suc, ◌%◌, inl, inr, Bool-cases, false, ◌+◌, ◌≤◌, ◌<◌, ◌≡◌, refl, ◌≢◌, List, [], ◌∷◌, ◌++◌,
  arith, ap, ◌∙◌, sym, ltb,
}
use water_rs.RawMessage.{usize_mod}
use water_rs.Store.{update}
use water_rs.Store.Alias.{update_self, update_ne}
use water_rs.Endpoint
use water_rs.Endpoint.{Endpoint}
use water_rs.Net.{Net, enrol, get_neweid, new_endpoint, new_endpoint_withid}

abbrev pub All : (ℕ → Type 0) → List ℕ → Type 0
All P [] = Unit {0}
All P (e ∷ es) = P e × All P es

-- No two of the endpoints have one identifier.
abbrev pub Apart : (ℕ → Endpoint) → List ℕ → Type 0
Apart cell [] = Unit {0}
Apart cell (e ∷ es) = All (λ d. (cell d).eid ≢ (cell e).eid) es × Apart cell es

-- The listed endpoints stand in cells that are in use, their identifiers are below the next one to
-- give out, and no two are equal.
pub record IsNumbered (net : Net) : Type 0 where
  pub known : All (λ e. e < net.fresh) net.endpoints
  pub below : All (λ e. (net.cell e).eid < net.hueid) net.endpoints
  pub apart : Apart net.cell net.endpoints

All-mono : (P Q : ℕ → Type 0) (es : List ℕ) → ((e : ℕ) → P e → Q e) → All P es → All Q es
All-mono P Q [] f h = tt
All-mono P Q (e ∷ es) f h = (f e h.0, All-mono P Q es f h.1)

All-zip : (P Q : ℕ → Type 0) (es : List ℕ) → All P es → All Q es → All (λ e. P e × Q e) es
All-zip P Q [] h k = tt
All-zip P Q (e ∷ es) h k = ((h.0, k.0), All-zip P Q es h.1 k.1)

All-snoc : (P : ℕ → Type 0) (es : List ℕ) (e : ℕ) → All P es → P e → All P (es ++ (e ∷ []))
All-snoc P [] e h k = (k, tt)
All-snoc P (d ∷ es) e h k = (h.0, All-snoc P es e h.1 k)

Apart-snoc :
    (cell : ℕ → Endpoint) (es : List ℕ) (e : ℕ)
    → Apart cell es
    → All (λ d. (cell d).eid ≢ (cell e).eid) es
    → Apart cell (es ++ (e ∷ []))
Apart-snoc cell [] e h k = (tt, tt)
Apart-snoc cell (d ∷ es) e h k =
    (All-snoc _ es e h.0 (λ same. k.0 (sym same)), Apart-snoc cell es e h.1 k.1)

Apart-agree :
    (cell cell' : ℕ → Endpoint) (es : List ℕ)
    → All (λ d. cell' d ≡ cell d) es
    → Apart cell es
    → Apart cell' es
Apart-agree cell cell' [] h k = tt
Apart-agree cell cell' (e ∷ es) h k = (
  All-mono _ _ es (λ d (same, ne). rw (same, h.0) ne) (All-zip _ _ es h.1 k.0),
  Apart-agree cell cell' es h.1 k.1,
)

abbrev pub bump : Endpoint → Endpoint
bump ep = record ep { refcnt = (ep.refcnt + 1) % usize_mod }

pub enrol-old : (net : Net) (eid e : ℕ) → e < net.fresh → (enrol net eid).0.cell e ≡ net.cell e
unfolding enrol
enrol-old net eid e h =
    let made = update net.cell net.fresh (Endpoint.new net.sid eid net.sid) in
    update_ne made net.fresh e (bump (made net.fresh)) (omega arith)
    ∙ update_ne net.cell net.fresh e (Endpoint.new net.sid eid net.sid) (omega arith)

pub enrol-new :
    (net : Net) (eid : ℕ)
    → (enrol net eid).0.cell net.fresh ≡ bump (Endpoint.new net.sid eid net.sid)
unfolding enrol
enrol-new net eid =
    let made = update net.cell net.fresh (Endpoint.new net.sid eid net.sid) in
    update_self made net.fresh (bump (made net.fresh))
    ∙ ap bump (update_self net.cell net.fresh (Endpoint.new net.sid eid net.sid))

-- A new endpoint in the next cell, at the end of the list, with an identifier that is not in use.
pub joined-IsNumbered :
    (net net' : Net)
    → IsNumbered net
    → net'.endpoints ≡ net.endpoints ++ (net.fresh ∷ [])
    → net'.fresh ≡ suc net.fresh
    → ((e : ℕ) → e < net.fresh → net'.cell e ≡ net.cell e)
    → net.hueid ≤ net'.hueid
    → (net'.cell net.fresh).eid < net'.hueid
    → All (λ e. (net.cell e).eid ≢ (net'.cell net.fresh).eid) net.endpoints
    → IsNumbered net'
joined-IsNumbered net net' v listed next same grows low new =
    let es = net.endpoints in
    record {
      known =
          rw (listed, next)
            (All-snoc _ es net.fresh (All-mono _ _ es (λ e h. omega arith) v.known) (omega arith));
      below = rw listed (
          All-snoc _ es net.fresh
            (All-mono _ _ es (λ e (k, b). rw (same e k) (omega arith))
              (All-zip _ _ es v.known v.below))
            low);
      apart = rw listed (
          Apart-snoc net'.cell es net.fresh
            (Apart-agree net.cell net'.cell es (All-mono _ _ es same v.known) v.apart)
            (All-mono _ _ es (λ e (k, ne). rw (same e k) ne) (All-zip _ _ es v.known new)));
    }

enrol-IsNumbered :
    (net : Net) (eid : ℕ)
    → IsNumbered net
    → eid < net.hueid
    → All (λ e. (net.cell e).eid ≢ eid) net.endpoints
    → IsNumbered (enrol net eid).0
unfolding enrol Endpoint.new
enrol-IsNumbered net eid v low new =
    joined-IsNumbered net (enrol net eid).0 v refl refl (enrol-old net eid) (omega arith)
      (rw is_eid low) (rw is_eid new)
  where
    is_eid : ((enrol net eid).0.cell net.fresh).eid ≡ eid
    is_eid = ap (λ (x : Endpoint). x.eid) (enrol-new net eid)

raise-IsNumbered :
    (net : Net) (n : ℕ) → IsNumbered net → net.hueid ≤ n → IsNumbered (record net { hueid = n })
raise-IsNumbered net n v h = record {
  known = v.known;
  below = All-mono _ _ net.endpoints (λ e b. omega arith) v.below;
  apart = v.apart;
}

pub unused :
    (net : Net) (eid : ℕ)
    → IsNumbered net
    → net.hueid ≤ eid
    → All (λ e. (net.cell e).eid ≢ eid) net.endpoints
unused net eid v h = All-mono _ _ net.endpoints (λ e b. omega arith) v.below

-- `new_endpoint`, `new_endpoint_withid` and `get_neweid` keep the identifiers of a net apart, as long
-- as they do not overflow. For `new_endpoint_withid` the identifier must be new, and must not be the
-- next one to give out.
pub new-IsNumbered :
    (net : Net)
    → IsNumbered net
    → net.hueid + 1 < usize_mod
    → IsNumbered (new_endpoint net).0
      × ((eid : ℕ)
          → eid + 1 < usize_mod
          → eid ≢ net.hueid
          → All (λ e. (net.cell e).eid ≢ eid) net.endpoints
          → IsNumbered (new_endpoint_withid net eid).0)
      × IsNumbered (get_neweid net).0
      × All (λ e. (net.cell e).eid ≢ (get_neweid net).1) net.endpoints
unfolding new_endpoint new_endpoint_withid get_neweid
new-IsNumbered net v h = (
  enrol-IsNumbered _ net.hueid (raise-IsNumbered net _ v (omega arith)) (omega arith)
      (unused net net.hueid v (omega arith)),
  λ eid k ne new. elim (Bool-cases (ltb net.hueid eid)) [
    | inl above ↦
        rw above
          (enrol-IsNumbered _ eid (raise-IsNumbered net _ v (ground arith)) (omega arith) new)
    | inr low ↦ rw low (enrol-IsNumbered net eid v (ground arith) new)
  ],
  raise-IsNumbered net _ v (omega arith),
  unused net net.hueid v (omega arith),
)

enrol_places :
    (net : Net) (eid : ℕ)
    → ((enrol net eid).1 ≡ net.fresh)
      × ((enrol net eid).0.fresh ≡ suc net.fresh)
      × ((enrol net eid).0.hueid ≡ net.hueid)
unfolding enrol
enrol_places net eid = (refl, refl, refl)

enrol_eid : (net : Net) (eid : ℕ) → ((enrol net eid).0.cell (enrol net eid).1).eid ≡ eid
unfolding Endpoint.new
enrol_eid net eid = rw ((enrol_places net eid).0) (ap (λ (x : Endpoint). x.eid) (enrol-new net eid))

-- `new_endpoint_withid` of the next identifier to give out leaves it the next one: the endpoint that
-- `new_endpoint` makes behind it is another one with the same identifier.
pub new_endpoint_withid-collides :
    (net : Net)
    → let (net', a) = new_endpoint_withid net net.hueid in
      let (net'', b) = new_endpoint net' in (a ≢ b) × ((net''.cell a).eid ≡ (net''.cell b).eid)
unfolding new_endpoint new_endpoint_withid
new_endpoint_withid-collides net = rw (not_above net.hueid) (
    twice (enrol net net.hueid).0 (enrol net net.hueid).1 (omega (arith, p.0, p.1))
      (enrol_eid net net.hueid ∙ sym p.2))
  where
    p :
        ((enrol net net.hueid).1 ≡ net.fresh)
        × ((enrol net net.hueid).0.fresh ≡ suc net.fresh)
        × ((enrol net net.hueid).0.hueid ≡ net.hueid)
    p = enrol_places net net.hueid

    not_above : (n : ℕ) → ltb n n ≡ false
    not_above n = ground arith

    twice :
        (m : Net) (a : ℕ)
        → a < m.fresh
        → (m.cell a).eid ≡ m.hueid
        → let (k, b) = new_endpoint m in (a ≢ b) × ((k.cell a).eid ≡ (k.cell b).eid)
    twice m a old is_eid =
        let m' = record m { hueid = (m.hueid + 1) % usize_mod } in
        (
          λ same. omega (arith, (enrol_places m' m.hueid).0),
          ap (λ (x : Endpoint). x.eid) (enrol-old m' m.hueid a old)
              ∙ is_eid
              ∙ sym (enrol_eid m' m.hueid),
        )
