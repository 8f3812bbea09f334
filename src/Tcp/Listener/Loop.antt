-- ===== src/Tcp/Listener/Loop.antt =====
-- `thread_accept` of src/tcp/listener.rs from one use of the lock to the next, and a thread that calls
-- `terminate` in between.
use water_rs.Prelude.{ℕ, ◌≡◌, Bool, true, false, Option, none, some, if◌then◌else◌, List}
use water_rs.Net.{Net}
use water_rs.Tcp.Link.{link}
use water_rs.Tcp.Listener.{
  TcpBridgeListener, new, setacceptor, getterminate, clientcountinc, close_accept,
}

-- Where `thread_accept` stands: before `bind`, before `setacceptor`, before `getterminate`, in front of
-- the next round, with a stream, behind the threads of the link, or returned.
pub data At : Type 0 where
  binding bound installed accepting streaming linked returned : At

-- And a call of `terminate`: there is none, behind the flag, behind `is_some`.
pub data Call : Type 0 where
  none_yet flagged closing : Call

pub record Listening : Type 0 where
  pub listener : TcpBridgeListener
  pub net : Net
  pub at : At
  pub call : Call

-- What `incoming` yields: a stream, an error, or its end.
pub data Item : Type 0 where
  stream error end : Item

-- What comes, while the acceptor listens or not, is up to the operating system.
abbrev pub Incoming : Type 1
Incoming = Option Bool → Item → Type 0

-- One step of `thread_accept`, of a call of `terminate`, or of others, which change the net and count
-- what is negotiated.
pub data Step (incoming : Incoming) (s : Listening) : Listening → Type 0 where
  fails : s.at ≡ At.binding → Step incoming s (record s { at = At.returned })
  binds : s.at ≡ At.binding → Step incoming s (record s { at = At.bound })
  installs :
      s.at ≡ At.bound
      → Step incoming s
          (record s { listener = setacceptor s.listener (some true); at = At.installed })
  tests :
      s.at ≡ At.installed
      → Step incoming s
          (record s { at = if getterminate s.listener then At.returned else At.accepting })
  skips : s.at ≡ At.accepting → incoming s.listener.acceptor Item.error → Step incoming s s
  takes :
      s.at ≡ At.accepting
      → incoming s.listener.acceptor Item.stream
      → Step incoming s (record s { at = At.streaming })
  ends :
      s.at ≡ At.accepting
      → incoming s.listener.acceptor Item.end
      → Step incoming s (record s { at = At.returned })
  links : s.at ≡ At.streaming → Step incoming s (record s { net = (link s.net).0; at = At.linked })
  counts :
      s.at ≡ At.linked
      → Step incoming s (record s { listener = clientcountinc s.listener; at = At.accepting })
  flags :
      s.call ≡ Call.none_yet
      → Step incoming s
          (record s { listener = record s.listener { terminate = true }; call = Call.flagged })
  finds :
      (listens : Bool)
      → s.call ≡ Call.flagged
      → s.listener.acceptor ≡ some listens
      → Step incoming s (record s { call = Call.closing })
  misses :
      s.call ≡ Call.flagged
      → s.listener.acceptor ≡ none
      → Step incoming s (record s { call = Call.none_yet })
  closes :
      s.call ≡ Call.closing
      → Step incoming s (record s {
        listener = record s.listener { acceptor = close_accept s.listener.acceptor };
        call = Call.none_yet;
      })
  elsewhere :
      (net : Net) (negcount : ℕ)
      → Step incoming s
          (record s { net = net; listener = record s.listener { negcount = negcount } })

pub data Reach (incoming : Incoming) (s : Listening) : Listening → Type 0 where
  here : Reach incoming s s
  later : {t u : Listening} → Reach incoming s t → Step incoming t u → Reach incoming s u

abbrev pub start : List ℕ → Net → Listening
start addr net = record { listener = new addr; net = net; at = At.binding; call = Call.none_yet }

-- Streams that were taken and not counted yet.
abbrev pub in_hand : At → ℕ
in_hand At.binding = 0
in_hand At.bound = 0
in_hand At.installed = 0
in_hand At.accepting = 0
in_hand At.streaming = 1
in_hand At.linked = 1
in_hand At.returned = 0

-- It has found no reason to stop before its loop.
abbrev pub is_serving : At → Bool
is_serving At.binding = false
is_serving At.bound = false
is_serving At.installed = false
is_serving At.accepting = true
is_serving At.streaming = true
is_serving At.linked = true
is_serving At.returned = false
