-- ===== src/Net/Poll.antt =====
-- The functions of src/endpoint.rs that receive from a list of endpoints.
pub mod Found
pub mod Waits
mod Tests
use water_rs.Prelude.{ℕ, Bool, true, false, List, [], ◌∷◌, Option, none, some}
use water_rs.Store.{M, pure, ◌>>=◌}
use water_rs.Message.{Message}
use water_rs.Endpoint.{IoResult, err, ok, timed_out}
use water_rs.Net.{Net, recv}

-- What other threads do before a round, and whether `get_time() > when` behind it.
pub record Round : Type 0 where
  pub others : Net → M Net
  pub late : Bool

-- The end of a round.
abbrev next_round :
    Bool
    → IoResult Message
    → Net
    → M (Net × Option (IoResult Message))
    → M (Net × Option (IoResult Message))
next_round late (ok msg) net rest = pure (net, some (ok msg))
next_round true (err e) net rest = pure (net, some (err (record { code = timed_out })))
next_round false (err e) net rest = rest

-- The function `recvorblock` over a list of endpoints; `none` if it goes on behind these rounds.
unfoldable pub recvorblock : List Round → List ℕ → Net → M (Net × Option (IoResult Message))
recvorblock [] es net = pure (net, none)
recvorblock (round ∷ rounds) es net = do
  net1 ← round.others net
  (net2, result) ← recv es net1
  next_round round.late result net2 (recvorblock rounds es net2)

-- The function `recvorblockforever`, which never gives up.
unfoldable pub recvorblockforever :
    List (Net → M Net) → List ℕ → Net → M (Net × Option (IoResult Message))
recvorblockforever [] es net = pure (net, none)
recvorblockforever (others ∷ rounds) es net = do
  net1 ← others net
  (net2, result) ← recv es net1
  next_round false result net2 (recvorblockforever rounds es net2)
