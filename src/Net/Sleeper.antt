-- ===== src/Net/Sleeper.antt =====
-- `sleeperthread` of src/net.rs, with the clock as a list of readings, one for each round. How two
-- times compare is up to the crate `time`.
use water_rs.Prelude.{ℕ, ◌≡◌, refl, Bool, true, false, ◌&&◌, List, [], ◌∷◌, ltb, if◌then◌else◌}
use water_rs.Timespec.{Timespec}
use water_rs.Endpoint.{Endpoint, never, getwaketime, sleepercount, hasmessages, wakeonewaiter}
use water_rs.Net.{Net, set_cell, adjust_latency, net_maxlatency}

and_false : (b : Bool) → (b && false) ≡ false
and_false true = refl
and_false false = refl

module _ (later : Timespec → Timespec → Bool) where
  unfoldable pub is_due : Timespec → Endpoint → Bool
  unfolding getwaketime sleepercount hasmessages
  is_due ctime ep =
      if later ctime (getwaketime ep) then true else hasmessages ep && ltb 0 (sleepercount ep)

  -- The loop over the endpoints of the net.
  unfoldable pub wake_loop : List ℕ → Timespec → Net → Net
  unfolding is_due wakeonewaiter
  wake_loop [] ctime net = net
  wake_loop (e ∷ es) ctime net =
      wake_loop es ctime
        (if is_due ctime (net.cell e) then set_cell net e (wakeonewaiter (net.cell e)) else net)

  -- A round behind the sleep; `wokesomeone` is set to false in it and never to true.
  unfoldable pub sleeper_round : Timespec → Net × ℕ → Net × ℕ
  unfolding wake_loop adjust_latency
  sleeper_round ctime (net, latency) =
      (wake_loop net.endpoints ctime net, adjust_latency false latency)

  sleeper_loop : List Timespec → Net × ℕ → Net × ℕ
  unfolding sleeper_round
  sleeper_loop [] state = state
  sleeper_loop (ctime ∷ readings) state = sleeper_loop readings (sleeper_round ctime state)

  unfoldable pub sleeperthread : List Timespec → Net → Net × ℕ
  unfolding sleeper_loop
  sleeperthread readings net = sleeper_loop readings (net, net_maxlatency)

  -- The clock has not come to the end of time.
  abbrev AllEarly : List Timespec → Type 0
  AllEarly [] = Unit {0}
  AllEarly (ctime ∷ readings) = (later ctime never ≡ false) × AllEarly readings

  -- As `Endpoint::new` leaves them, and nothing changes.
  abbrev AllUnslept : Net → Type 0
  AllUnslept net = (e : ℕ) → ((net.cell e).wakeupat ≡ never) × ((net.cell e).slpcnt ≡ 0)

  is_due-early :
      (ctime : Timespec) (ep : Endpoint)
      → later ctime never ≡ false
      → (ep.wakeupat ≡ never) × (ep.slpcnt ≡ 0)
      → is_due ctime ep ≡ false
  unfolding is_due getwaketime sleepercount
  is_due-early ctime ep early (at, none_sleeps) =
      rw (at, early, none_sleeps) (and_false (hasmessages ep))

  wake_loop-early :
      (es : List ℕ) (ctime : Timespec) (net : Net)
      → later ctime never ≡ false
      → AllUnslept net
      → wake_loop es ctime net ≡ net
  unfolding wake_loop
  wake_loop-early [] ctime net early h = refl
  wake_loop-early (e ∷ es) ctime net early h =
      rw (is_due-early ctime (net.cell e) early (h e)) (wake_loop-early es ctime net early h)

  sleeper_loop-early :
      (readings : List Timespec) (net : Net)
      → AllEarly readings
      → AllUnslept net
      → sleeper_loop readings (net, net_maxlatency) ≡ (net, net_maxlatency)
  unfolding sleeper_loop sleeper_round adjust_latency
  sleeper_loop-early [] net early h = refl
  sleeper_loop-early (ctime ∷ readings) net early h =
      rw (wake_loop-early net.endpoints ctime net early.0 h)
        (sleeper_loop-early readings net early.1 h)

  -- On endpoints that have the wake-up time and the count of sleepers that `Endpoint::new` gives them,
  -- the sleeper wakes nobody, as long as the clock is not past the last time there is, and its latency
  -- stays at the maximum.
  pub sleeperthread-early :
      (readings : List Timespec) (net : Net)
      → AllEarly readings
      → AllUnslept net
      → sleeperthread readings net ≡ (net, net_maxlatency)
  unfolding sleeperthread
  sleeperthread-early readings net early h = sleeper_loop-early readings net early h
