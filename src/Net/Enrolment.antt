-- ===== src/Net/Enrolment.antt =====
-- A new endpoint on its net (src/net.rs), and who owns it.
use water_rs.Prelude.{
  ℕ, ◌+◌, ◌%◌, ◌<◌, ◌≡◌, refl, List, [], ◌∷◌, ◌++◌, arith, ap, ◌==◌, if◌then◌else◌,
}
use water_rs.RawMessage.{usize_mod}
use water_rs.Endpoint
use water_rs.Endpoint.{Endpoint}
use water_rs.Net.Ids.{All, IsNumbered, enrol-old, enrol-new, bump}
use water_rs.Net.{enrol, Net, occurrences, new_endpoint}
use water_rs.Net.Lifetime.{OwnedBy}

pub fresh_not_listed : (n : ℕ) (es : List ℕ) → All (λ e. e < n) es → occurrences n es ≡ 0
unfolding occurrences
fresh_not_listed n [] h = refl
fresh_not_listed n (e ∷ es) h = ground (arith, fresh_not_listed n es h.1, h.0)

pub occurrences-append :
    (e d : ℕ) (es : List ℕ)
    → occurrences e (es ++ (d ∷ [])) ≡ (if d == e then occurrences e es + 1 else occurrences e es)
unfolding occurrences
occurrences-append e d [] = ground arith
occurrences-append e d (c ∷ es) = ground (arith, occurrences-append e d es)

-- On a net whose identifiers are apart and whose endpoints stand in cells in use, a new endpoint
-- is listed once and has one handle outside of the net; the other endpoints are as they were.
pub new_endpoint-OwnedBy :
    (net : Net)
    → IsNumbered net
    → let (net', e) = new_endpoint net in
      OwnedBy net' e 1
      × ((d : ℕ)
          → d < net.fresh
          → (net'.cell d ≡ net.cell d)
            × (occurrences d net'.endpoints ≡ occurrences d net.endpoints))
unfolding new_endpoint enrol Endpoint.new
new_endpoint-OwnedBy net v = (
  (
    ap (λ (x : Endpoint). x.refcnt) made,
    omega (arith, once),
    ap (λ (x : Endpoint). x.dropped) made,
  ),
  λ d h. (enrol-old raised net.hueid d h, others d h),
)
  where
    raised : Net
    raised = record net { hueid = (net.hueid + 1) % usize_mod }

    made : (enrol raised net.hueid).0.cell net.fresh ≡ bump (Endpoint.new net.sid net.hueid net.sid)
    made = enrol-new raised net.hueid

    once : occurrences net.fresh (net.endpoints ++ (net.fresh ∷ [])) ≡ 1
    once = ground (
      arith,
      occurrences-append net.fresh net.fresh net.endpoints,
      fresh_not_listed net.fresh net.endpoints v.known,
    )

    others :
        (d : ℕ)
        → d < net.fresh
        → occurrences d (net.endpoints ++ (net.fresh ∷ [])) ≡ occurrences d net.endpoints
    others d h = ground (arith, occurrences-append d net.fresh net.endpoints)
