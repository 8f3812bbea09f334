-- ===== src/Samples.antt =====
-- Test data: sound memory, messages of the three kinds, two endpoints and a net that lists them.
use water_rs.Prelude.{ℕ, ◌+◌, refl, true, false, List, [], ◌∷◌, arith}
use water_rs.RawMessage.{Internal, Layout}
use water_rs.Store.{Store, IsSound}
use water_rs.Message.{Message, MessagePayload}
use water_rs.Endpoint.{Endpoint, never}
use water_rs.Net.{Net, occurrences}
use water_rs.Net.Listed.{IsListed}
use water_rs.Net.Ids.{IsNumbered}

-- A structure of two bytes.
pub record Point : Type 0 where
  pub x : ℕ
  pub y : ℕ

abbrev point_of : List ℕ → Point
point_of [] = record { x = 0; y = 0 }
point_of (a ∷ []) = record { x = a; y = 0 }
point_of (a ∷ b ∷ bs) = record { x = a; y = b }

abbrev pub point_layout : Layout Point
point_layout = record {
  size_of = 2;
  to_bytes = λ t. t.x ∷ t.y ∷ [];
  of_bytes = point_of;
  length-to_bytes = λ t. refl;
  of_bytes-to_bytes = λ t. refl;
}

abbrev pub three_bytes : Internal
three_bytes = record { len = 2; cap = 3; buf = 7 ∷ 8 ∷ 9 ∷ [] }

abbrev pub store : Store
store = record { next = 5; buffer = λ p. three_bytes; valid = λ f. true; mem = λ p i. 0 }

pub store-IsSound : IsSound store
store-IsSound = record {
  buffers = λ p. record { full = refl; within = omega arith };
  sized = λ p. omega arith;
}

abbrev addressed : MessagePayload → Message
addressed p = record {
  srcsid = 0;
  srceid = 0;
  dstsid = 0;
  dsteid = 0;
  canloop = false;
  payload = p;
}

abbrev pub raw_message : Message
raw_message = addressed (MessagePayload.raw 3)

abbrev pub sync_message : Message
sync_message = addressed (MessagePayload.sync (record { tyid = 1; valid = 2; payload = 4 }))

abbrev pub endpoint : ℕ → Endpoint
endpoint eid = record {
  eid = eid;
  sid = 9;
  gid = 0;
  messages = record { vec = [] };
  memoryused = 0;
  limitpending = 2;
  limitmemory = 0;
  net_sid = 9;
  refcnt = 2;
  dropped = false;
  notified = 0;
  wakeupat = never;
  slpcnt = 0;
}

abbrev pub net : Net
net = record {
  sid = 9;
  hueid = 100;
  endpoints = 0 ∷ 1 ∷ [];
  cell = λ e. endpoint (10 + e);
  fresh = 2;
}

pub net-IsListed : IsListed net
unfolding occurrences
net-IsListed = record { distinct = (refl, (refl, tt)); allocated = λ d h. ground arith }

pub net-IsNumbered : IsNumbered net
net-IsNumbered = record {
  known = (omega arith, (omega arith, tt));
  below = (omega arith, (omega arith, tt));
  apart = ((λ e. omega arith, tt), (tt, tt));
}
