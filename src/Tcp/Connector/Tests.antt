-- ===== src/Tcp/Connector/Tests.antt =====
-- Runs of the theorems on src/tcp/connector.rs.
use water_rs.Prelude.{[], ◌≤◌, ◌≡◌, refl, ◌⊎◌, true, false, none, some, done}
use water_rs.SyncMessage.{Typed}
use water_rs.Tcp.Connector.{terminate}
use water_rs.Tcp.Connector.Loop.{
  Bridge, connecting, reached, spawned, linked, joined, returned, Step, Reach, connects, checks,
  runs, here, later, own, unless_terminated, checked,
}
use water_rs.Tcp.Connector.Stops.{Reach-stops, terminate-unheard}
use water_rs.Samples.{store, net}

abbrev terminate_message : Typed (Unit {0})
terminate_message = record {
  layout = record {
    size_of = 0;
    to_bytes = λ u. [];
    of_bytes = λ bytes. tt;
    length-to_bytes = λ u. refl;
    of_bytes-to_bytes = λ u. refl;
  };
  type_id = 5;
}

-- It was told to terminate while it connects.
abbrev told : Bridge
told = record {
  connector = record { ep = none; terminate = true; connected = false };
  net = net;
  store = store;
  at = connecting;
}

abbrev connected : Bridge
connected = record told { at = reached }

two_steps : Reach terminate_message told (unless_terminated connected checked)
two_steps = later (later here (runs (connects refl))) (runs (checks refl))

Reach-stops_example :
    (own two_steps ≤ 2)
    × (((unless_terminated connected checked).at ≡ returned)
        ⊎ ((u : Bridge) × Step (unless_terminated connected checked) u))
Reach-stops_example =
    Reach-stops terminate_message 2 told (unless_terminated connected checked) refl refl two_steps

-- The threads of the first link run.
abbrev running : Bridge
running = record told {
  connector = record { ep = none; terminate = false; connected = true };
  at = spawned 2;
}

abbrev flagged : Bridge
flagged = record running { connector = record running.connector { terminate = true } }

abbrev stored : Bridge
stored = record flagged { connector = record flagged.connector { ep = some 2 }; at = linked 2 }

terminate-unheard_example :
    (terminate terminate_message running.connector running.net running.store
      ≡ done ((flagged.connector, running.net), running.store))
    × Step flagged stored
    × ((t : Bridge) → Step stored t → t ≡ record stored { at = joined })
terminate-unheard_example = terminate-unheard terminate_message running 2 refl refl
