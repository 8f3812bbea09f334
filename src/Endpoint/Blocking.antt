-- ===== src/Endpoint/Blocking.antt =====
-- `recvorblock` and `recvorblockforever` of src/endpoint.rs: what a receiving thread does between two
-- points at which it lets go of `waitmutex`. `give` puts a message into the queue under the same
-- mutex, so that each of these parts is one step.
pub mod Threads
pub mod Moves
pub mod Wake
pub mod Results
mod Tests
use water_rs.Prelude.{Bool, true, false}
use water_rs.Store.{M, pure, ◌>>=◌}
use water_rs.Message.{Message}
use water_rs.Endpoint.{Endpoint, IoResult, err, ok, timed_out, recv}

-- Which of the two methods a thread is in.
pub data Mode : Type 0 where
  forever timed : Mode

-- Where it stands: before its first `recv`, in `wait` or `wait_timeout`, behind it, or done. The flag
-- behind a wait is the one that `wait_timeout` returns: `false` when the time is over.
pub data Phase : Type 0 where
  starting : Mode → Phase
  sleeping : Mode → Phase
  woken : Mode → Bool → Phase
  returned : IoResult Message → Phase

-- A receiver that found no message waits.
abbrev or_sleep : Mode → IoResult Message → Phase
or_sleep mode (ok msg) = returned (ok msg)
or_sleep mode (err e) = sleeping mode

-- The part before the loop.
unfoldable pub start : Mode → Endpoint → M (Endpoint × Phase)
unfolding recv
start mode ep = do (ep', result) ← recv ep; pure (ep', or_sleep mode result)

-- The end of a round: `recvorblock` gives up when the time is over.
abbrev or_expire : Mode → Bool → IoResult Message → Phase
or_expire mode in_time (ok msg) = returned (ok msg)
or_expire forever in_time (err e) = sleeping forever
or_expire timed true (err e) = sleeping timed
or_expire timed false (err e) = returned (err (record { code = timed_out }))

-- A round of the loop, behind the wait.
unfoldable pub resume : Mode → Bool → Endpoint → M (Endpoint × Phase)
unfolding recv
resume mode in_time ep = do (ep', result) ← recv ep; pure (ep', or_expire mode in_time result)
