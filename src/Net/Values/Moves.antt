-- ===== src/Net/Values/Moves.antt =====
-- What the users of a net (src/net.rs) do keeps the queues of its endpoints readable and counted.
use water_rs.Prelude.{ℕ, suc, ◌≤◌, ◌<◌, ◌≡◌, refl, Bool, true, List, [], done, arith, ◌∙◌}
use water_rs.RawMessage.{Internal, usize_mod}
use water_rs.Store.{Store, IsSound, update}
use water_rs.Store.Alias.{update_ne, update_self}
use water_rs.Message.{Message}
use water_rs.Message.Values.{
  new_sync-packed, new_clone-packed, packed_message, packed_store, packed_clone, packed_cloned,
}
use water_rs.Endpoint.Accounting.{Extends}
use water_rs.Net.{Net, sendas, endpoint_send, sendsynctype, sendclonetype}
use water_rs.Net.Listed.{IsListed, new_endpoint-IsListed}
use water_rs.Net.Values.{Types, Trait, typed, Use, result_list, use_net, IsSendable}
use water_rs.Net.Values.Steps.{IsFair-Extends}
use water_rs.Net.Values.Offers.{
  AllFair, Keeps, same-Extends, send-Keeps, receive-Keeps, new_endpoint-AllFair,
}

module _ (types : Types) (P : Trait types) where
  -- Packing a value leaves the rest of the memory as it was.
  packed-Extends :
      (s : Store) (n : ℕ) (i : Internal) (b : ℕ → Bool)
      → s.next ≤ n
      → Extends s (record s { next = n; buffer = update s.buffer s.next i; valid = b })
  packed-Extends s n i b h = record {
    grows = h;
    keeps = λ p k. update_ne s.buffer s.next p i (omega arith);
  }

  Extends-trans : {s t u : Store} → Extends s t → Extends t u → Extends s u
  Extends-trans x y = record {
    grows = omega (arith, x.grows, y.grows);
    keeps = λ p h. y.keeps p (omega (arith, h, x.grows)) ∙ x.keeps p h;
  }

  pub later-Keeps :
      {s t u : Store} {net : Net} {ms : List Message}
      → Extends s t
      → Keeps types P t u net ms
      → Keeps types P s u net ms
  later-Keeps x k = record {
    sound = k.sound;
    listed = k.listed;
    fair = k.fair;
    got = k.got;
    extends = Extends-trans x k.extends;
  }

  -- One step of the users.
  pub use_net-Keeps :
      (u : Use types) (net : Net) (s : Store)
      → ((k : ℕ) → (types k).1.size_of < usize_mod)
      → IsSound s
      → IsListed net
      → AllFair types P net s
      → IsSendable types P u s
      → (net' : Net) × (ms : List Message) × (t : Store) × (use_net types u net s
          ≡ done ((net', ms), t))
        × Keeps types P s t net' ms
  unfolding use_net endpoint_send sendas sendsynctype sendclonetype
  use_net-Keeps (Use.sends_sync e k t) net s small v l fair h =
      let ty = typed types k in
      let (j, made, sound, value) = new_sync-packed ty t s (small k) v in
      let x =
        packed-Extends s (suc (suc s.next)) j (update s.valid (suc s.next) true) (omega arith) in
      let addressed = record (packed_message ty s) {
        srcsid = (net.cell e).sid;
        srceid = (net.cell e).eid;
        dstsid = 1;
        dsteid = 0;
      } in
      let (r, u, sent, keeps) =
        send-Keeps types P (packed_message ty s).payload net addressed (packed_store j s) sound l
          (λ d. IsFair-Extends types P x (fair d))
          (omega arith, (t, rw (update_self s.buffer s.next j) value, h)) in
      (r.0, [], u, rw (made, sent) refl, later-Keeps x keeps)
  use_net-Keeps (Use.sends_clone e k t) net s small v l fair h =
      let ty = typed types k in
      let (j, made, sound, value) = new_clone-packed ty t s (small k) v in
      let x = packed-Extends s (suc s.next) j s.valid (omega arith) in
      let addressed = record (packed_clone ty s) {
        srcsid = (net.cell e).sid;
        srceid = (net.cell e).eid;
        dstsid = 1;
        dsteid = 0;
      } in
      let (r, u, sent, keeps) =
        send-Keeps types P (packed_clone ty s).payload net addressed (packed_cloned j s) sound l
          (λ d. IsFair-Extends types P x (fair d))
          (omega arith, (t, rw (update_self s.buffer s.next j) value, h)) in
      (r.0, [], u, rw (made, sent) refl, later-Keeps x keeps)
  use_net-Keeps (Use.sends e msg) net s small v l fair h =
      let addressed = record msg { srcsid = (net.cell e).sid; srceid = (net.cell e).eid } in
      let (r, t, sent, keeps) = send-Keeps types P msg.payload net addressed s v l fair h in
      (r.0, [], t, rw sent refl, keeps)
  use_net-Keeps (Use.receives e) net s small v l fair h =
      let (r, t, got, keeps) = receive-Keeps types P e net s v l fair in
      (r.0, result_list r.1, t, rw got refl, keeps)
  use_net-Keeps Use.joins net s small v l fair h = (
    _,
    [],
    s,
    refl,
    record {
      sound = v;
      listed = new_endpoint-IsListed net l;
      fair = new_endpoint-AllFair types P net s fair;
      got = tt;
      extends = same-Extends types P s;
    },
  )
