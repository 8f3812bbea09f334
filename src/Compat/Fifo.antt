-- ===== src/Compat/Fifo.antt =====
-- A channel (src/compat.rs) is a first-in first-out queue of values.
use water_rs.Prelude.{
  ℕ, ◌<◌, ◌≡◌, refl, ◌≢◌, ◌⊎◌, inl, inr, false, List, [], ◌∷◌, ◌++◌, done, arith, length, ltb,
}
use water_rs.RawMessage.{usize_mod, Internal, readstructunsaferef}
use water_rs.Store.{Store, IsSound}
use water_rs.SyncMessage.{Typed}
use water_rs.Message
use water_rs.Message.{Message, MessagePayload}
use water_rs.Message.Values.{packed_message, packed_store, new_sync-packed}
use water_rs.Endpoint
use water_rs.Endpoint.{Endpoint, IoResult, released, no_messages}
use water_rs.Endpoint.Give.{IsFor, HasRoom, accepted}
use water_rs.Net
use water_rs.Net.{Net, set_cell, occurrences}
use water_rs.Net.Held.{IsHeld}
use water_rs.Net.Spread.{send_internal-IsSpread, IsSpread}
use water_rs.Compat.{channel, send, send_opt}
use water_rs.Compat.Carries.{AllCarry, AllCarry-packed}

-- The two endpoints of a channel, and the values in the queue of the second one.
pub record Holds {T : Type 0} (ty : Typed T) (net : Net) (s : Store) (ts : List T) : Type 0 where
  pub sound : IsSound s
  pub listed : net.endpoints ≡ 0 ∷ 1 ∷ []
  pub apart : (net.cell 0).eid ≢ (net.cell 1).eid
  pub local_net : (net.cell 1).sid ≡ (net.cell 1).net_sid
  pub limitpending : (net.cell 1).limitpending ≡ 0
  pub limitmemory : (net.cell 1).limitmemory ≡ 0
  pub held : ((net.cell 0).refcnt ≡ 2) × ((net.cell 1).refcnt ≡ 2)
  pub queued : AllCarry ty s 0 (net.cell 1).messages.vec ts

pub channel-Holds :
    {T : Type 0} (ty : Typed T) (cell : ℕ → Endpoint) (s : Store)
    → IsSound s
    → Holds ty (channel cell).0 s []
unfolding channel Net.enrol Endpoint.new
channel-Holds ty cell s v = record {
  sound = v;
  listed = refl;
  apart = λ e. omega arith;
  local_net = refl;
  limitpending = refl;
  limitmemory = refl;
  held = (refl, refl);
  queued = tt;
}

module _ {T : Type 0} (ty : Typed T) (net : Net) (s : Store) (ts : List T) (h : Holds ty net s ts)
    (t : T) (small : ty.size_of < usize_mod) where
  -- What `send` puts on the net.
  addressed : Message
  addressed = record (packed_message ty s) {
    srcsid = (net.cell 0).sid;
    srceid = (net.cell 0).eid;
    dstsid = 1;
    dsteid = 0;
  }

  not_sender : ¬ (IsFor (net.cell 0) addressed × HasRoom (net.cell 0))
  unfolding addressed
  not_sender (f, r) = ground (arith, f.no_loop)

  is_receiver : IsFor (net.cell 1) addressed × HasRoom (net.cell 1)
  unfolding addressed
  is_receiver = (
    record {
      no_loop = inr (inl (λ e. h.apart e));
      net = inr (inl (refl, h.local_net));
      endpoint = inl refl;
    },
    record { pending = inl h.limitpending; memory = inl h.limitmemory },
  )

  sent-Holds :
      (j : Internal) (cell' : ℕ → Endpoint)
      → IsSound (packed_store j s)
      → readstructunsaferef ty.layout j 0 ≡ done t
      → IsSpread (0 ∷ 1 ∷ []) addressed (packed_store j s) net.cell cell'
      → Holds ty (record net { cell = cell' }) (packed_store j s) (ts ++ (t ∷ []))
  unfolding occurrences addressed
  sent-Holds j cell' v value spread = record {
    sound = v;
    listed = h.listed;
    apart = rw (kept, taken) h.apart;
    local_net = rw taken h.local_net;
    limitpending = rw taken h.limitpending;
    limitmemory = rw taken h.limitmemory;
    held = (rw kept h.held.0, rw taken h.held.1);
    queued = rw taken (
        AllCarry-packed ty s j addressed t 0 (net.cell 1).messages.vec ts refl value (omega arith)
          h.queued);
  }
    where
      kept : cell' 0 ≡ net.cell 0
      kept = elim (spread.listed 0 (λ e. omega arith)) [
        | inl (f, r, e) ↦ absurd (not_sender (f, r))
        | inr (n, e) ↦ e
      ]

      taken : cell' 1 ≡ accepted (net.cell 1) addressed (packed_store j s)
      taken = elim (spread.listed 1 (λ e. omega arith)) [
        | inl (f, r, e) ↦ e
        | inr (n, e) ↦ absurd (n is_receiver)
      ]

  sendsynctype-sent :
      (j : Internal) (cell' : ℕ → Endpoint) (n : ℕ)
      → Message.new_sync ty t s ≡ done (packed_message ty s, packed_store j s)
      → Net.send_internal net addressed (packed_store j s)
        ≡ done ((record net { cell = cell' }, n), packed_store j s)
      → Net.sendsynctype ty net 0 t s ≡ done ((record net { cell = cell' }, n), packed_store j s)
  unfolding Net.sendsynctype addressed
  sendsynctype-sent j cell' n packed run = rw (packed, run)

  send-sent :
      (net' : Net) (s' : Store) (n : ℕ)
      → Net.sendsynctype ty net 0 t s ≡ done ((net', n), s')
      → send ty net 0 t s ≡ done (net', s')
  unfolding send
  send-sent net' s' n run =
      let peers : ltb (length net.endpoints) 2 ≡ false = rw h.listed in rw (send_opt, peers, run)

  is_held : (d : ℕ) → occurrences d (0 ∷ 1 ∷ []) ≢ 0 → IsHeld (net.cell d)
  unfolding occurrences
  is_held d listed =
      let both : (0 ≡ d) ⊎ (1 ≡ d) = ground arith in
      elim both [
        | inl e ↦
            rw (← e)
              (record { owned = omega (arith, h.held.0); countable = omega (arith, h.held.0) })
        | inr e ↦
            rw (← e)
              (record { owned = omega (arith, h.held.1); countable = omega (arith, h.held.1) })
      ]

  pub send-Holds :
      (net' : Net) × (s' : Store) × (send ty net 0 t s ≡ done (net', s'))
      × Holds ty net' s' (ts ++ (t ∷ []))
  unfolding occurrences
  send-Holds =
      let (j, packed, v, value) = new_sync-packed ty t s small h.sound in
      let (cell', n, run, spread, count) =
        send_internal-IsSpread net addressed (packed_store j s) (rw h.listed (refl, (refl, tt)))
          (λ d listed. is_held d (rw h.listed at listed)) in
      (
        record net { cell = cell' },
        packed_store j s,
        send-sent _ _ n (sendsynctype-sent j cell' n packed run),
        sent-Holds j cell' v value (rw h.listed at spread),
      )
