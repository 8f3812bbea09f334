-- ===== src/Tcp/Link/Joins.antt =====
-- What a bridge adds to its net (src/tcp/listener.rs, src/tcp/connector.rs).
use water_rs.Prelude.{ℕ, suc, ◌+◌, ◌%◌, ◌<◌, ◌≡◌, refl, true, false, [], ◌∷◌, ◌++◌, arith, ◌==◌}
use water_rs.RawMessage.{usize_mod}
use water_rs.Endpoint.{Endpoint, unused_id, never}
use water_rs.Net.{Net, occurrences}
use water_rs.Net.Ids.{IsNumbered, joined-IsNumbered, unused}
use water_rs.Net.Lifetime.{OwnedBy}
use water_rs.Net.Enrolment.{fresh_not_listed, occurrences-append}
use water_rs.Tcp.Link.{link}

-- The endpoint that `link` leaves in the new cell.
abbrev linked : Net → Endpoint
linked net = record {
  eid = net.hueid;
  sid = unused_id;
  gid = (net.hueid + 1) % usize_mod;
  messages = record { vec = [] };
  memoryused = 0;
  limitpending = 0;
  limitmemory = 0;
  net_sid = net.sid;
  refcnt = 3;
  dropped = false;
  notified = 0;
  wakeupat = never;
  slpcnt = 0;
}

link-new : (net : Net) → (link net).0.cell net.fresh ≡ linked net
unfolding link
link-new net = let hit : (net.fresh == net.fresh) ≡ true = ground arith in rw hit

link-old : (net : Net) (d : ℕ) → d < net.fresh → (link net).0.cell d ≡ net.cell d
unfolding link
link-old net d h = let miss : (net.fresh == d) ≡ false = ground arith in rw miss

link_places :
    (net : Net)
    → ((link net).1 ≡ net.fresh)
      × ((link net).0.endpoints ≡ net.endpoints ++ (net.fresh ∷ []))
      × ((link net).0.fresh ≡ suc net.fresh)
      × ((link net).0.hueid ≡ ((net.hueid + 1) % usize_mod + 1) % usize_mod)
unfolding link
link_places net = (refl, refl, refl, refl)

-- A bridge adds one endpoint to a net whose identifiers are apart and do not overflow, with two
-- handles outside, for the two threads, and two identifiers of its own that the net did not use;
-- its system identifier is the unused one before the other side has named itself. The identifiers
-- of the net stay apart and the other endpoints are as they were.
pub link-OwnedBy :
    (net : Net)
    → IsNumbered net
    → net.hueid + 2 < usize_mod
    → let (net', e) = link net in
      IsNumbered net'
      × OwnedBy net' e 2
      × ((net'.cell e).sid ≡ unused_id)
      × ((net'.cell e).eid ≡ net.hueid)
      × ((net'.cell e).gid ≡ net.hueid + 1)
      × ((d : ℕ) → d < net.fresh → net'.cell d ≡ net.cell d)
link-OwnedBy net v small =
    let (is_fresh, listed, next, high) = link_places net in
    rw (is_fresh, link-new net)
      (
        joined-IsNumbered net (link net).0 v listed next (link-old net) (omega (arith, high))
            (rw (link-new net) (omega (arith, high)))
            (rw (link-new net) (unused net net.hueid v (omega arith))),
        (refl, rw listed once, refl),
        refl,
        refl,
        omega arith,
        link-old net,
      )
  where
    once : occurrences net.fresh (net.endpoints ++ (net.fresh ∷ [])) ≡ 1
    once = ground (
      arith,
      occurrences-append net.fresh net.fresh net.endpoints,
      fresh_not_listed net.fresh net.endpoints v.known,
    )
