-- ===== src/Net/Values/Offers.antt =====
-- What a net (src/net.rs) does to the queues of its endpoints keeps them readable and counted.
use water_rs.Prelude.{
  ℕ, ◌+◌, ◌%◌, ◌≡◌, refl, inl, inr, List, [], ◌∷◌, done, arith, if◌then◌else◌, ◌==◌, Bool-cases,
}
use water_rs.RawMessage.{usize_mod}
use water_rs.Store.{Store, IsSound, RawMessage}
use water_rs.Store.Alias.{after_dup, copied, dup-done, after_dup-IsSound, update_ne}
use water_rs.Message
use water_rs.Message.{Message, MessagePayload}
use water_rs.Endpoint.{Endpoint, IoResult, err, ok, released, give}
use water_rs.Endpoint.Receive.{recv-Received}
use water_rs.Endpoint.Accounting.{Extends}
use water_rs.Net.{
  Net, set_cell, send_loop, send_internal, send, endpoint_recv, new_endpoint, enrol, create,
  clone_endpoint, add_endpoint, clone_all,
}
use water_rs.Net.Handles.{Alike, clone_all-IsAlike}
use water_rs.Net.Listed.{IsListed, IsAlike-IsListed, send_internal-around}
use water_rs.Net.Values.{Types, Trait, result_list, IsReadablePayload, IsReadable, AllReadable}
use water_rs.Queue.SafeQueue
use water_rs.Endpoint
use water_rs.Net.Values.Steps.{IsFair, IsFair-Extends, give-IsFair, Received-IsFair}

module _ (types : Types) (P : Trait types) where
  -- Every endpoint of the net, also one that is not listed.
  abbrev pub AllFair : Net → Store → Type 0
  AllFair net s = (e : ℕ) → IsFair types P (net.cell e) s

  AllFair-set_cell :
      (net : Net) (e : ℕ) (ep : Endpoint) (s : Store)
      → AllFair net s
      → IsFair types P ep s
      → AllFair (set_cell net e ep) s
  AllFair-set_cell net e ep s fair f d = elim (Bool-cases (e == d)) [
    | inl h ↦ rw h f
    | inr h ↦ rw h (fair d)
  ]

  -- What a step leaves: sound memory, fair endpoints, readable messages handed out, and all that was
  -- there before.
  pub record Keeps (s t : Store) (net : Net) (ms : List Message) : Type 0 where
    pub sound : IsSound t
    pub listed : IsListed net
    pub fair : AllFair net t
    pub got : AllReadable types P ms t
    pub extends : Extends s t

  Alike-IsFair :
      (ep ep' : Endpoint) (s : Store) → Alike ep ep' → IsFair types P ep s → IsFair types P ep' s
  Alike-IsFair ep ep' s e f = rw e (record {
    count = record { counted = f.count.counted; live = f.count.live };
    readable = f.readable;
  })

  send_loop-AllFair :
      (es : List ℕ) (msg : Message) (net : Net) (ocnt : ℕ) (s : Store)
      → AllFair net s
      → IsReadable types P msg s
      → (cell' : ℕ → Endpoint) × (n : ℕ) × (send_loop es msg net ocnt s
          ≡ done ((record net { cell = cell' }, n), s))
        × ((e : ℕ) → IsFair types P (cell' e) s)
  unfolding send_loop
  send_loop-AllFair [] msg net ocnt s fair h = (net.cell, ocnt, refl, fair)
  send_loop-AllFair (e ∷ es) msg net ocnt s fair h =
      let (ep', b, given, f) = give-IsFair types P (net.cell e) msg s (fair e) h in
      let (cell', n, sent, fair') =
        send_loop-AllFair es msg (set_cell net e ep') (if b then ocnt + 1 else ocnt) s
          (AllFair-set_cell net e ep' s fair f) h in
      (cell', n, rw given sent, fair')

  send_internal-AllFair :
      (net : Net) (msg : Message) (s : Store)
      → IsListed net
      → AllFair net s
      → IsReadable types P msg s
      → (r : Net × ℕ) × (send_internal net msg s ≡ done (r, s)) × AllFair r.0 s × IsListed r.0
  send_internal-AllFair net msg s l fair h =
      let cloned = clone_all-IsAlike net.endpoints net l.distinct in
      let (cell', n, run, fair') =
        send_loop-AllFair net.endpoints msg (clone_all net.endpoints net) 0 s
          (λ e. Alike-IsFair (net.cell e) _ s (cloned.cells e) (fair e)) h in
      let (net', sent, x, same) = send_internal-around net msg s cell' n l.distinct run in
      let l' = IsAlike-IsListed x l in
      (
        (net', n),
        sent,
        λ e. Alike-IsFair (cell' e) (net'.cell e) s (same e) (fair' e),
        record { distinct = l'.distinct; allocated = l'.allocated },
      )

  dup-Extends : (r : RawMessage) (s : Store) → Extends s (after_dup r s)
  dup-Extends r s = record {
    grows = omega arith;
    keeps = λ p h. update_ne s.buffer s.next p (copied (s.buffer r)) (omega arith);
  }

  pub same-Extends : (s : Store) → Extends s s
  same-Extends s = record { grows = omega arith; keeps = λ p h. refl }

  -- A raw message is copied once, the others go out as they are.
  pub send-Keeps :
      (p : MessagePayload) (net : Net) (msg : Message) (s : Store)
      → IsSound s
      → IsListed net
      → AllFair net s
      → IsReadablePayload types P p s
      → (r : Net × ℕ) × (t : Store) × (send net (record msg { payload = p }) s ≡ done (r, t))
        × Keeps s t r.0 []
  unfolding send Message.is_raw Message.dup
  send-Keeps (MessagePayload.raw r) net msg s v l fair h =
      let copy = record msg { payload = MessagePayload.raw s.next } in
      let (res, sent, fair', l') =
        send_internal-AllFair net copy (after_dup r s) l
          (λ e. IsFair-Extends types P (dup-Extends r s) (fair e)) (omega arith) in
      (
        res,
        after_dup r s,
        rw (dup-done r s v) sent,
        record {
          sound = after_dup-IsSound r s v;
          listed = l';
          fair = fair';
          got = tt;
          extends = dup-Extends r s;
        },
      )
  send-Keeps (MessagePayload.sync y) net msg s v l fair h =
      let (res, sent, fair', l') =
        send_internal-AllFair net (record msg { payload = MessagePayload.sync y }) s l fair h in
      let k : Keeps s s res.0 [] = record {
        sound = v;
        listed = l';
        fair = fair';
        got = tt;
        extends = same-Extends s;
      } in
      (res, s, sent, k)
  send-Keeps (MessagePayload.clone y) net msg s v l fair h =
      let (res, sent, fair', l') =
        send_internal-AllFair net (record msg { payload = MessagePayload.clone y }) s l fair h in
      let k : Keeps s s res.0 [] = record {
        sound = v;
        listed = l';
        fair = fair';
        got = tt;
        extends = same-Extends s;
      } in
      (res, s, sent, k)

  pub receive-Keeps :
      (e : ℕ) (net : Net) (s : Store)
      → IsSound s
      → IsListed net
      → AllFair net s
      → (r : Net × IoResult Message) × (t : Store) × (endpoint_recv net e s ≡ done (r, t))
        × Keeps s t r.0 (result_list r.1)
  unfolding endpoint_recv
  receive-Keeps e net s v l fair =
      let (r, t, got, spec) = recv-Received (net.cell e) s v in
      let (sound, x, f, readable) =
        Received-IsFair types P (net.cell e).messages.vec (net.cell e) s r t v spec refl (fair e) in
      (
        (set_cell net e r.0, r.1),
        t,
        rw got refl,
        record {
          sound = sound;
          listed = record { distinct = l.distinct; allocated = l.allocated };
          fair = AllFair-set_cell net e r.0 t (λ d. IsFair-Extends types P x (fair d)) f;
          got = readable;
          extends = x;
        },
      )

  new-IsFair : (sid eid net_sid : ℕ) (s : Store) → IsFair types P (Endpoint.new sid eid net_sid) s
  unfolding Endpoint.new SafeQueue.new
  new-IsFair sid eid net_sid s = record {
    count = record { counted = refl; live = tt };
    readable = tt;
  }

  owned-IsFair :
      (ep : Endpoint) (n : ℕ) (s : Store)
      → IsFair types P ep s
      → IsFair types P (record ep { refcnt = n }) s
  owned-IsFair ep n s f = record {
    count = record { counted = f.count.counted; live = f.count.live };
    readable = f.readable;
  }

  pub new_endpoint-AllFair :
      (net : Net) (s : Store) → AllFair net s → AllFair (new_endpoint net).0 s
  unfolding new_endpoint enrol create clone_endpoint add_endpoint
  new_endpoint-AllFair net s fair =
      let made : Net = (create (record net { hueid = (net.hueid + 1) % usize_mod }) net.hueid).0 in
      let fair' : AllFair made s =
        AllFair-set_cell net net.fresh (Endpoint.new net.sid net.hueid net.sid) s fair
          (new-IsFair net.sid net.hueid net.sid s) in
      AllFair-set_cell made net.fresh
        (record (made.cell net.fresh) { refcnt = ((made.cell net.fresh).refcnt + 1) % usize_mod }) s
        fair' (owned-IsFair (made.cell net.fresh) _ s (fair' net.fresh))
