-- ===== src/Tcp/Listener/Refuses.antt =====
-- What `terminate` does to the thread of a listener (src/tcp/listener.rs).
use water_rs.Prelude.{
  ℕ, ◌+◌, ◌%◌, ◌≡◌, ◌≢◌, refl, ◌∙◌, ◌⊎◌, inl, inr, Bool, true, false, Option, none, some, List,
  arith, Bool-cases,
}
use water_rs.RawMessage.{usize_mod}
use water_rs.Net.{Net}
use water_rs.Tcp.Listener.{setacceptor, getterminate, clientcountinc, close_accept}
use water_rs.Tcp.Listener.Loop.{
  At, Call, Listening, Item, Incoming, Step, Reach, start, in_hand, is_serving,
}

-- The acceptor of a thread that has one; and one that serves although it was told to terminate is
-- closed, unless the call is not over.
abbrev has_acceptor : At → Bool
has_acceptor At.binding = false
has_acceptor At.bound = false
has_acceptor At.installed = true
has_acceptor At.accepting = true
has_acceptor At.streaming = true
has_acceptor At.linked = true
has_acceptor At.returned = false

pub record IsOrderly (s : Listening) : Type 0 where
  pub owns : has_acceptor s.at ≡ true → s.listener.acceptor ≢ none
  pub heard :
      is_serving s.at ≡ true
      → s.listener.terminate ≡ true
      → (s.listener.acceptor ≡ some false) ⊎ (s.call ≢ Call.none_yet)

serving_owns : (a : At) → is_serving a ≡ true → has_acceptor a ≡ true
serving_owns At.binding h = h
serving_owns At.bound h = h
serving_owns At.installed h = refl
serving_owns At.accepting h = refl
serving_owns At.streaming h = refl
serving_owns At.linked h = refl
serving_owns At.returned h = h

closed : (a : Option Bool) → a ≢ none → close_accept a ≡ some false
unfolding close_accept
closed none h = absurd (h refl)
closed (some listens) h = refl

module _ (incoming : Incoming) where
  Step-IsOrderly : (s t : Listening) → Step incoming s t → IsOrderly s → IsOrderly t
  unfolding setacceptor clientcountinc getterminate
  Step-IsOrderly s t (Step.fails e) v = record { owns = λ h. cc; heard = λ h k. cc }
  Step-IsOrderly s t (Step.binds e) v = record { owns = λ h. cc; heard = λ h k. cc }
  Step-IsOrderly s t (Step.installs e) v = record { owns = λ h n. cc; heard = λ h k. cc }
  Step-IsOrderly s t (Step.tests e) v = elim (Bool-cases s.listener.terminate) [
    | inl f ↦ rw f (record { owns = λ h. cc; heard = λ h k. cc })
    | inr f ↦ rw f (record { owns = λ h. v.owns (rw e refl); heard = λ h k. cc })
  ]
  Step-IsOrderly s t (Step.skips e i) v = v
  Step-IsOrderly s t (Step.takes e i) v = record {
    owns = λ h. v.owns (rw e refl);
    heard = λ h k. v.heard (rw e refl) k;
  }
  Step-IsOrderly s t (Step.ends e i) v = record { owns = λ h. cc; heard = λ h k. cc }
  Step-IsOrderly s t (Step.links e) v = record {
    owns = λ h. v.owns (rw e refl);
    heard = λ h k. v.heard (rw e refl) k;
  }
  Step-IsOrderly s t (Step.counts e) v = record {
    owns = λ h. v.owns (rw e refl);
    heard = λ h k. v.heard (rw e refl) k;
  }
  Step-IsOrderly s t (Step.flags e) v = record { owns = v.owns; heard = λ h k. inr (λ c. cc) }
  Step-IsOrderly s t (Step.finds listens e a) v = record {
    owns = v.owns;
    heard = λ h k. inr (λ c. cc);
  }
  Step-IsOrderly s t (Step.misses e a) v = record {
    owns = v.owns;
    heard = λ h k. absurd (v.owns (serving_owns s.at h) a);
  }
  Step-IsOrderly s t (Step.closes e) v = record {
    owns = λ h n. let shut = closed s.listener.acceptor (v.owns h) in cc;
    heard = λ h k. inl (closed s.listener.acceptor (v.owns (serving_owns s.at h)));
  }
  Step-IsOrderly s t (Step.elsewhere net negcount) v = record { owns = v.owns; heard = v.heard }

  Reach-IsOrderly : (s t : Listening) → IsOrderly s → Reach incoming s t → IsOrderly t
  Reach-IsOrderly s t v Reach.here = v
  Reach-IsOrderly s t v (Reach.later {t = mid} r st) =
      Step-IsOrderly mid t st (Reach-IsOrderly s mid v r)

  -- It was told to terminate, and does not serve, or its acceptor is closed.
  record IsClosed (s : Listening) : Type 0 where
    told : s.listener.terminate ≡ true
    shut : is_serving s.at ≡ true → s.listener.acceptor ≡ some false

  module _ (refused : ¬ incoming (some false) Item.stream) where
    -- So a step takes no further stream.
    Step-IsClosed :
        (s t : Listening)
        → Step incoming s t
        → IsClosed s
        → IsClosed t
          × ((t.listener.clientcount + in_hand t.at) % usize_mod
              ≡ (s.listener.clientcount + in_hand s.at) % usize_mod)
    unfolding setacceptor clientcountinc getterminate close_accept
    Step-IsClosed s t (Step.fails e) v = (record { told = v.told; shut = λ h. cc }, rw e refl)
    Step-IsClosed s t (Step.binds e) v = (record { told = v.told; shut = λ h. cc }, rw e refl)
    Step-IsClosed s t (Step.installs e) v = (record { told = v.told; shut = λ h. cc }, rw e refl)
    Step-IsClosed s t (Step.tests e) v =
        rw v.told (record { told = refl; shut = λ h. cc }, rw e refl)
    Step-IsClosed s t (Step.skips e i) v = (v, refl)
    Step-IsClosed s t (Step.takes e i) v =
        let shut = v.shut (rw e refl) in absurd (refused (rw shut at i))
    Step-IsClosed s t (Step.ends e i) v = (record { told = v.told; shut = λ h. cc }, rw e refl)
    Step-IsClosed s t (Step.links e) v =
        (record { told = v.told; shut = λ h. v.shut (rw e refl) }, rw e refl)
    Step-IsClosed s t (Step.counts e) v =
        (record { told = v.told; shut = λ h. v.shut (rw e refl) }, rw e (omega arith))
    Step-IsClosed s t (Step.flags e) v = (record { told = refl; shut = v.shut }, refl)
    Step-IsClosed s t (Step.finds listens e a) v = (record { told = v.told; shut = v.shut }, refl)
    Step-IsClosed s t (Step.misses e a) v = (record { told = v.told; shut = v.shut }, refl)
    Step-IsClosed s t (Step.closes e) v =
        (record { told = v.told; shut = λ h. rw (v.shut h) refl }, refl)
    Step-IsClosed s t (Step.elsewhere net negcount) v =
        (record { told = v.told; shut = v.shut }, refl)

    Reach-IsClosed :
        (s t : Listening)
        → IsClosed s
        → Reach incoming s t
        → IsClosed t
          × ((t.listener.clientcount + in_hand t.at) % usize_mod
              ≡ (s.listener.clientcount + in_hand s.at) % usize_mod)
    Reach-IsClosed s t v Reach.here = (v, refl)
    Reach-IsClosed s t v (Reach.later {t = mid} r st) =
        let (w, same) = Reach-IsClosed s mid v r in
        let (x, next) = Step-IsClosed mid t st w in (x, next ∙ same)

    -- A closed acceptor yields no stream. Once a call of `terminate` is over, the listener takes no
    -- further stream, whatever its thread and other calls do: the count of clients, with the stream in
    -- hand, does not change any more, modulo 2 ^ 64.
    pub Reach-refuses :
        (addr : List ℕ) (net : Net) (s t : Listening)
        → Reach incoming (start addr net) s
        → s.listener.terminate ≡ true
        → s.call ≡ Call.none_yet
        → Reach incoming s t
        → (t.listener.clientcount + in_hand t.at) % usize_mod
          ≡ (s.listener.clientcount + in_hand s.at) % usize_mod
    Reach-refuses addr net s t before told over after =
        let v =
          Reach-IsOrderly (start addr net) s (record { owns = λ h. cc; heard = λ h k. cc })
            before in
        (Reach-IsClosed s t
          (record {
            told = told;
            shut = λ h. elim (v.heard h told) [ inl shut ↦ shut | inr busy ↦ absurd (busy over) ];
          })
          after).1
