-- ===== src/Tcp/Listener/Tests.antt =====
-- Runs of the theorems on src/tcp/listener.rs.
use water_rs.Prelude.{◌+◌, ◌%◌, ◌≡◌, refl, [], Bool, true, false, Option, none, some}
use water_rs.RawMessage.{usize_mod}
use water_rs.Tcp.Listener.{setacceptor, getterminate, clientcountinc, close_accept, new}
use water_rs.Tcp.Link.{link}
use water_rs.Tcp.Listener.Loop.{At, Call, Listening, Item, Incoming, Step, Reach, start, in_hand}
use water_rs.Tcp.Listener.Refuses.{Reach-refuses}
use water_rs.Samples.{net}

-- An acceptor that listens yields streams and errors, a closed one errors.
abbrev open_streams : Incoming
open_streams none item = ⊥
open_streams (some true) Item.stream = Unit {0}
open_streams (some true) Item.error = Unit {0}
open_streams (some true) Item.end = ⊥
open_streams (some false) Item.stream = ⊥
open_streams (some false) Item.error = Unit {0}
open_streams (some false) Item.end = ⊥

never_ends : (a : Option Bool) → ¬ open_streams a Item.end
never_ends none h = h
never_ends (some true) h = h
never_ends (some false) h = h

-- `terminate` comes while the first stream is in hand.
abbrev served : Listening
served = record {
  listener = record {
    addr = [];
    terminate = true;
    clientcount = 0;
    negcount = 0;
    acceptor = some false;
  };
  net = net;
  at = At.streaming;
  call = Call.none_yet;
}

served-Reach : Reach open_streams (start [] net) served
unfolding new setacceptor getterminate close_accept
served-Reach =
    Reach.later
      (Reach.later
        (Reach.later
          (Reach.later
            (Reach.later
              (Reach.later (Reach.later Reach.here (Step.binds refl)) (Step.installs refl))
              (Step.tests refl))
            (Step.takes refl tt))
          (Step.flags refl))
        (Step.finds true refl refl))
      (Step.closes refl)

-- The stream is linked and counted, and an error skipped.
abbrev behind : Listening
behind = record served {
  listener = clientcountinc served.listener;
  net = (link net).0;
  at = At.accepting;
}

served-behind : Reach open_streams served behind
unfolding clientcountinc
served-behind =
    Reach.later (Reach.later (Reach.later Reach.here (Step.links refl)) (Step.counts refl))
      (Step.skips refl tt)

Reach-refuses_example :
    (behind.listener.clientcount + in_hand behind.at) % usize_mod
    ≡ (served.listener.clientcount + in_hand served.at) % usize_mod
Reach-refuses_example =
    Reach-refuses open_streams (λ h. h) [] net served behind served-Reach refl refl served-behind
