-- ===== src/Compat/Hangup.antt =====
-- How the ends of a channel (src/compat.rs) hear that the other end is gone.
use water_rs.Prelude.{
  ℕ, zero, suc, ◌+◌, ◌<◌, ◌≡◌, refl, ap, ◌∙◌, List, ◌∷◌, some, done, panicked, arith, length,
}
use water_rs.RawMessage.{usize_mod}
use water_rs.Store.{Store, pure, ◌>>=◌}
use water_rs.SyncMessage.{Typed}
use water_rs.Message.{Message}
use water_rs.Endpoint.{IoResult, IoError}
use water_rs.Net.{Net, drop, sendsynctype, getepcount}
use water_rs.Net.Lifetime.{OwnedBy, length-remove, drop_last-endpoints, drop_other-endpoints}
use water_rs.Compat.{ok, err, getpeercount, send_opt, send, recv_opt}

module _ {T : Type 0} (ty : Typed T) where
  -- The peer is gone: sending fails and `send` panics, and a receiver that waits in vain gives up.
  abbrev pub HungUp : Net → ℕ → Store → Type 0
  HungUp net a s =
      ((t : T) → (send_opt ty net a t s ≡ done ((net, err t), s)) × (send ty net a t s ≡ panicked))
      × ((e : IoError) (results : List (IoResult Message × ℕ))
          → recv_opt ty ((IoResult.err e, getpeercount net) ∷ results) s ≡ done (some (err tt), s))

  -- It is there: a value is sent, and a receiver that waits in vain waits again.
  abbrev pub Connected : Net → ℕ → Store → Type 0
  Connected net a s =
      ((t : T)
        → send_opt ty net a t s ≡ (sendsynctype ty net a t >>= λ (net', n). pure (net', ok tt)) s)
      × ((e : IoError) (results : List (IoResult Message × ℕ))
          → recv_opt ty ((IoResult.err e, getpeercount net) ∷ results) s ≡ recv_opt ty results s)

  hears : (net : Net) (a : ℕ) (s : Store) → length net.endpoints ≡ 1 → HungUp net a s
  unfolding send_opt send recv_opt getpeercount getepcount
  hears net a s one =
      (λ t. (rw (send_opt, one) refl, rw (send, send_opt, one) refl), λ e results. rw one refl)

  goes_on : (net : Net) (a : ℕ) (s : Store) → length net.endpoints ≡ 2 → Connected net a s
  unfolding send_opt recv_opt getpeercount getepcount
  goes_on net a s two = (λ t. rw (send_opt, two) refl, λ e results. rw two refl)

  abbrev pub Hears : ℕ → Net → ℕ → Store → Type 0
  Hears zero net a s = HungUp net a s
  Hears (suc k) net a s = Connected net a s

  -- The ends of a channel are the two endpoints of its net. When a proxy of one end is dropped, the
  -- other end hears of it exactly if it was the last one: then `send_opt` gives its value back, `send`
  -- panics and a `recv_opt` whose wait is over fails. While another clone of the proxy is left, a value
  -- is sent and the receiver waits again.
  pub drop-Hears :
      (net : Net) (a b k : ℕ) (s : Store)
      → k + 3 < usize_mod
      → OwnedBy net b (suc k)
      → length net.endpoints ≡ 2
      → (net' : Net) × (drop net b ≡ done net') × Hears k net' a s
  drop-Hears net a b zero s h o two =
      let (net', dropped, left) = drop_last-endpoints net b o in
      (
        net',
        dropped,
        hears net' a s (omega (arith, two, ap length left, length-remove b net.endpoints o.1)),
      )
  drop-Hears net a b (suc k) s h o two =
      let (net', dropped, left) = drop_other-endpoints net b k (omega arith) o in
      (net', dropped, goes_on net' a s (ap length left ∙ two))
