-- ===== src/Net/Values/Runs.antt =====
-- Whatever the users of a net (src/net.rs) do, and in whatever order: what is received can be read, and
-- the bytes in use are counted.
use water_rs.Prelude.{
  ℕ, ◌%◌, ◌<◌, ◌≡◌, refl, inl, inr, true, List, [], ◌∷◌, ◌++◌, done, arith, ◌==◌,
}
use water_rs.RawMessage.{usize_mod}
use water_rs.Store.{Store, IsSound, readstructunsafe}
use water_rs.SyncMessage
use water_rs.CloneMessage
use water_rs.Message.{Message, MessagePayload, is_raw, is_type, typeunwrap}
use water_rs.Endpoint.Accounting.{Extends, total_cap}
use water_rs.Net.{Net}
use water_rs.Net.Listed.{IsListed}
use water_rs.Net.Values.{
  Types, Trait, Use, uses, IsReadablePayload, AllReadable, IsSendable, AllSendable, Unwraps,
  AllUnwrap,
}
use water_rs.Net.Values.Steps.{IsReadable-Extends, AllReadable-Extends, AllReadable-append}
use water_rs.Net.Values.Moves.{use_net-Keeps, later-Keeps}
use water_rs.Net.Values.Offers.{AllFair, Keeps}

module _ (types : Types) (P : Trait types) where
  IsSendable-Extends :
      (u : Use types) {s t : Store} → Extends s t → IsSendable types P u s → IsSendable types P u t
  IsSendable-Extends (Use.sends e msg) x h = IsReadable-Extends types P msg.payload x h
  IsSendable-Extends (Use.sends_sync e k t) x h = h
  IsSendable-Extends (Use.sends_clone e k t) x h = h
  IsSendable-Extends (Use.receives e) x h = h
  IsSendable-Extends Use.joins x h = h

  AllSendable-Extends :
      (us : List (Use types)) {s t : Store}
      → Extends s t
      → AllSendable types P us s
      → AllSendable types P us t
  AllSendable-Extends [] x h = tt
  AllSendable-Extends (u ∷ us) x h = (IsSendable-Extends u x h.0, AllSendable-Extends us x h.1)

  pub uses-Keeps :
      (us : List (Use types)) (net : Net) (s : Store)
      → ((k : ℕ) → (types k).1.size_of < usize_mod)
      → IsSound s
      → IsListed net
      → AllFair types P net s
      → AllSendable types P us s
      → (net' : Net) × (ms : List Message) × (t : Store) × (uses types us net s
          ≡ done ((net', ms), t))
        × Keeps types P s t net' ms
  unfolding uses
  uses-Keeps [] net s small v l fair h = (
    net,
    [],
    s,
    refl,
    record {
      sound = v;
      listed = l;
      fair = fair;
      got = tt;
      extends = record { grows = omega arith; keeps = λ p k. refl };
    },
  )
  uses-Keeps (u ∷ us) net s small v l fair h =
      let (net', ms, t, first, k) = use_net-Keeps types P u net s small v l fair h.0 in
      let (net'', later, w, rest, k') =
        uses-Keeps us net' t small k.sound k.listed k.fair (AllSendable-Extends us k.extends h.1) in
      let both = later-Keeps types P k.extends k' in
      (
        net'',
        ms ++ later,
        w,
        rw (first, rest) refl,
        record {
          sound = k'.sound;
          listed = k'.listed;
          fair = k'.fair;
          got =
              AllReadable-append types P ms later w
                (AllReadable-Extends types P ms k'.extends k.got) k'.got;
          extends = both.extends;
        },
      )

  same_type : (k : ℕ) → (k == k) ≡ true
  same_type k = ground arith

  IsReadable-Unwraps :
      (p : MessagePayload) (msg : Message) (s : Store)
      → IsReadablePayload types P p s
      → Unwraps types P (record msg { payload = p }) s
  unfolding is_raw is_type typeunwrap SyncMessage.is_type SyncMessage.get_payload
      CloneMessage.is_type CloneMessage.get_payload readstructunsafe
  IsReadable-Unwraps (MessagePayload.raw r) msg s h = inl refl
  IsReadable-Unwraps (MessagePayload.sync y) msg s (live, (t, e, has)) =
      inr (y.tyid, t, same_type y.tyid, rw (same_type y.tyid, e) refl, has)
  IsReadable-Unwraps (MessagePayload.clone y) msg s (live, (t, e, has)) =
      inr (y.tyid, t, same_type y.tyid, rw (same_type y.tyid, e) refl, has)

  AllReadable-AllUnwrap :
      (ms : List Message) (s : Store) → AllReadable types P ms s → AllUnwrap types P ms s
  AllReadable-AllUnwrap [] s h = tt
  AllReadable-AllUnwrap (m ∷ ms) s h =
      (IsReadable-Unwraps m.payload m s h.0, AllReadable-AllUnwrap ms s h.1)

  -- Every value that is received has its type, and what holds of the values that are sent holds of
  -- it. The users of a net send values with a property `P`, of types whose sizes fit a `usize`, send
  -- messages that can be read, receive and join, in any order, in sound memory, on a net that lists no
  -- endpoint twice and no free cell, with endpoints whose queues can be read and are counted. Nobody
  -- panics, and every message that was handed out is raw, or
  -- there is a type at which `is_type` holds and `typeunwrap` returns a value with `P`.
  pub uses-AllUnwrap :
      (us : List (Use types)) (net : Net) (s : Store)
      → ((k : ℕ) → (types k).1.size_of < usize_mod)
      → IsSound s
      → IsListed net
      → AllFair types P net s
      → AllSendable types P us s
      → (net' : Net) × (ms : List Message) × (t : Store) × (uses types us net s
          ≡ done ((net', ms), t))
        × AllUnwrap types P ms t
  uses-AllUnwrap us net s small v l fair h =
      let (net', ms, t, run, k) = uses-Keeps us net s small v l fair h in
      (net', ms, t, run, AllReadable-AllUnwrap ms t k.got)

  -- In such runs the bytes that every endpoint counts as in use stay the capacities in its queue,
  -- modulo 2 ^ 64.
  pub uses-counted :
      (us : List (Use types)) (net : Net) (s : Store)
      → ((k : ℕ) → (types k).1.size_of < usize_mod)
      → IsSound s
      → IsListed net
      → AllFair types P net s
      → AllSendable types P us s
      → (net' : Net) × (ms : List Message) × (t : Store) × (uses types us net s
          ≡ done ((net', ms), t))
        × ((e : ℕ) → (net'.cell e).memoryused ≡ total_cap (net'.cell e).messages.vec t % usize_mod)
  uses-counted us net s small v l fair h =
      let (net', ms, t, run, k) = uses-Keeps us net s small v l fair h in
      (net', ms, t, run, λ e. (k.fair e).count.counted)
