-- ===== src/Tcp/Connector/Stops.antt =====
-- When the thread of a connector (src/tcp/connector.rs) stops.
use water_rs.Prelude.{
  ℕ, zero, suc, ◌+◌, ◌≤◌, ◌≡◌, refl, ap, ◌⊎◌, inl, inr, true, false, none, some, Outcome, done,
  panicked, undefined, arith,
}
use water_rs.Store.{Store, pure, and_then}
use water_rs.SyncMessage.{Typed}
use water_rs.Net
use water_rs.Net.{Net}
use water_rs.Tcp.Connector.{TcpBridgeConnector, terminate, give_terminate, drop_old}
use water_rs.Tcp.Connector.Loop.{
  At, connecting, reached, checked, registered, spawned, linked, joined, returned, Bridge, left,
  unless_terminated, abandon, spawn_unless_terminated, Step, fails, connects, checks, registers,
  spawns, sets, joins, disconnects, runs, terminates, elsewhere, Reach, here, later, own,
}

-- It is told to terminate, and has at most `n` steps to go.
pub record IsStopping (n : ℕ) (s : Bridge) : Type 0 where
  pub told : s.connector.terminate ≡ true
  pub rank : ℕ
  pub few : rank ≤ n
  pub counts : left s.at ≡ some rank

stopped :
    (n : ℕ) (s : Bridge) (next : At)
    → s.connector.terminate ≡ true
    → IsStopping n (unless_terminated s next)
unfolding unless_terminated
stopped n s next e = rw e (record { told = refl; rank = 0; few = omega arith; counts = refl })

-- A thread in front of `join` does nothing else.
joins_only :
    (s : Bridge) (e : ℕ) (t : Bridge) → s.at ≡ linked e → Step s t → t ≡ record s { at = joined }
joins_only s e t h (fails k) = absurd (ground (arith, h, k))
joins_only s e t h (connects k) = absurd (ground (arith, h, k))
joins_only s e t h (checks k) = absurd (ground (arith, h, k))
joins_only s e t h (registers k) = absurd (ground (arith, h, k))
joins_only s e t h (spawns d k) = absurd (ground (arith, h, k))
joins_only s e t h (sets d k dropped) = absurd (ground (arith, h, k))
joins_only s e t h (joins d k) = refl
joins_only s e t h (disconnects k) = absurd (ground (arith, h, k))

abandoned :
    (n : ℕ) (s : Bridge) (o : Outcome Net)
    → s.connector.terminate ≡ true
    → IsStopping n (abandon s o)
unfolding abandon
abandoned n s (done net) e = record { told = e; rank = 0; few = omega arith; counts = refl }
abandoned n s panicked e = record { told = e; rank = 0; few = omega arith; counts = refl }
abandoned n s undefined e = record { told = e; rank = 0; few = omega arith; counts = refl }

not_spawned :
    (n : ℕ) (s : Bridge) (d : ℕ)
    → s.connector.terminate ≡ true
    → IsStopping n (spawn_unless_terminated s d)
unfolding spawn_unless_terminated
not_spawned n s d e =
    let same : spawn_unless_terminated s d ≡ abandon s (Net.drop s.net d) =
      ap (λ b. elim b [ true ↦ abandon s (Net.drop s.net d) | false ↦ record s { at = spawned d } ])
        e in
    rw same (abandoned n s (Net.drop s.net d) e)

rank_at :
    (n k : ℕ) (s : Bridge) (a : At) (v : IsStopping n s) → s.at ≡ a → left a ≡ some k → v.rank ≡ k
rank_at n k s a v e h = let same : some v.rank ≡ some k = cc in ground (arith, same)

-- A step of the thread brings it closer to its end.
abbrev Closer : ℕ → Bridge → Type 0
Closer n t = (m : ℕ) × (suc m ≡ n) × IsStopping m t

closer : (n k : ℕ) (t : Bridge) → suc k ≤ n → ((m : ℕ) → k ≤ m → IsStopping m t) → Closer n t
closer zero k t h at = absurd (omega arith)
closer (suc m) k t h at = (m, refl, at m (omega arith))

Step-Closer : (n : ℕ) (s t : Bridge) → Step s t → IsStopping n s → Closer n t
Step-Closer n s t (fails e) v =
    closer n 0 t (omega (arith, v.few, rank_at n 2 s _ v e refl)) (λ m h. stopped m s _ v.told)
Step-Closer n s t (connects e) v =
    closer n 1 t (omega (arith, v.few, rank_at n 2 s _ v e refl))
      (λ m h. record { told = v.told; rank = 1; few = h; counts = refl })
Step-Closer n s t (checks e) v =
    closer n 0 t (omega (arith, v.few, rank_at n 1 s _ v e refl)) (λ m h. stopped m s _ v.told)
Step-Closer n s t (registers e) v =
    closer n 1 t (omega (arith, v.few, rank_at n 2 s _ v e refl))
      (λ m h. record { told = v.told; rank = 1; few = h; counts = refl })
Step-Closer n s t (spawns d e) v =
    closer n 0 t (omega (arith, v.few, rank_at n 1 s _ v e refl)) (λ m h. not_spawned m s d v.told)
Step-Closer n s t (sets d e dropped) v = absurd (ground (arith, v.counts, e))
Step-Closer n s t (joins d e) v = absurd (ground (arith, v.counts, e))
Step-Closer n s t (disconnects e) v =
    closer n 0 t (omega (arith, v.few, rank_at n 1 s _ v e refl)) (λ m h.
      stopped m (record s { connector = record s.connector { connected = false } }) _ v.told)

sets_flag :
    (b c : TcpBridgeConnector) (o : Outcome (Net × Store)) (net : Net) (u : Store)
    → and_then {B = TcpBridgeConnector × Net} o (λ net'. pure (record b { terminate = true }, net'))
      ≡ done ((c, net), u)
    → c.terminate ≡ true
sets_flag b c panicked net u e = absurd (ground (arith, e))
sets_flag b c undefined net u e = absurd (ground (arith, e))
sets_flag b c (done (net', u')) net u e =
    let same : c ≡ record b { terminate = true } = ground (arith, e) in ap (λ d. d.terminate) same

terminate-flag :
    (ty : Typed (Unit {0})) (b c : TcpBridgeConnector) (net net' : Net) (s u : Store)
    → terminate ty b net s ≡ done ((c, net'), u)
    → c.terminate ≡ true
unfolding terminate
terminate-flag ty b c net net' s u e = sets_flag b c (give_terminate ty b.ep net s) net' u e

module _ (ty : Typed (Unit {0})) where
  own-IsStopping :
      (n : ℕ) (s t : Bridge)
      → IsStopping n s
      → (r : Reach ty s t) → (m : ℕ) × (m + own r ≡ n) × IsStopping m t
  own-IsStopping n s t v here = (n, omega arith, v)
  own-IsStopping n s t v (later {t = mid} r (runs st)) =
      let (m, few, w) = own-IsStopping n s mid v r in
      let (m', less, w') = Step-Closer m mid t st w in (m', omega (arith, few, less), w')
  own-IsStopping n s t v (later {t = mid} r (terminates {connector} {net} {store} e)) =
      let (m, few, w) = own-IsStopping n s mid v r in
      (
        m,
        few,
        record {
          told = terminate-flag ty mid.connector connector mid.net net mid.store store e;
          rank = w.rank;
          few = w.few;
          counts = w.counts;
        },
      )
  own-IsStopping n s t v (later {t = mid} r (elsewhere net store connected)) =
      let (m, few, w) = own-IsStopping n s mid v r in
      (m, few, record { told = w.told; rank = w.rank; few = w.few; counts = w.counts })

  goes_on :
      (a : At) (k : ℕ) (s : Bridge)
      → s.at ≡ a
      → left a ≡ some k
      → (s.at ≡ returned) ⊎ ((t : Bridge) × Step s t)
  goes_on connecting k s e h = inr (_, connects e)
  goes_on reached k s e h = inr (_, checks e)
  goes_on checked k s e h = inr (_, registers e)
  goes_on (registered d) k s e h = inr (_, spawns d e)
  goes_on (spawned d) k s e h = absurd (ground (arith, h))
  goes_on (linked d) k s e h = absurd (ground (arith, h))
  goes_on joined k s e h = inr (_, disconnects e)
  goes_on returned k s e h = inl e

  -- A connector whose `terminate` flag is set, and whose thread has not started the threads of a link,
  -- or has joined them, stops. Whatever the others do, the thread takes no more steps than `left`
  -- counts, which are at most two, and it can take one until it has returned.
  pub Reach-stops :
      (k : ℕ) (s t : Bridge)
      → s.connector.terminate ≡ true
      → left s.at ≡ some k
      → (r : Reach ty s t) → (own r ≤ k) × ((t.at ≡ returned) ⊎ ((u : Bridge) × Step t u))
  Reach-stops k s t e h r =
      let v : IsStopping k s = record { told = e; rank = k; few = omega arith; counts = h } in
      let (m, few, w) = own-IsStopping k s t v r in
      (omega (arith, few), goes_on t.at w.rank t refl w.counts)

  -- A call of `terminate` that comes when the threads of the first link run, but before the connector
  -- has stored their endpoint, reaches nobody: it sets the flag and changes neither the net nor the
  -- memory. The next step of the thread stores the endpoint, drops nothing, and changes neither as well;
  -- from there every step of the thread leads behind the join of both threads.
  pub terminate-unheard :
      (s : Bridge) (e : ℕ)
      → s.at ≡ spawned e
      → s.connector.ep ≡ none
      → let told = record s { connector = record s.connector { terminate = true } } in
        let stored = record told {
          connector = record told.connector { ep = some e };
          at = linked e;
        } in
        (terminate ty s.connector s.net s.store ≡ done ((told.connector, s.net), s.store))
        × Step told stored
        × ((t : Bridge) → Step stored t → t ≡ record stored { at = joined })
  unfolding terminate drop_old
  terminate-unheard s e at_spawned no_ep =
      (rw no_ep refl, sets e {net = s.net} at_spawned (rw no_ep), λ t st. joins_only _ e t refl st)
