-- ===== src/Queue/PointerCache/Stack.antt =====
-- `PointerCache` of src/queue.rs gives back last what came last.
use water_rs.Prelude.{ℕ, ◌+◌, ◌-◌, ◌%◌, ◌<◌, ◌≡◌, ◌≢◌, some, false, arith, ◌==◌}
use water_rs.RawMessage.{usize_mod}
use water_rs.Store.{update}
use water_rs.Store.Alias.{update_self, update-update}
use water_rs.Queue.PointerCache.{PointerCache, push, pop}

back_again : (pos : ℕ) → pos < usize_mod → ((pos + 1) % usize_mod + usize_mod - 1) % usize_mod ≡ pos
back_again pos h = omega (arith, h)

-- The pointer that `push` stored is the one that the next `pop` returns, also where the position wraps
-- around. Both together leave the slot empty, with the position where it was. A position is a `usize`,
-- and null is no pointer.
pub pop-push :
    (cache : PointerCache) (a : ℕ)
    → cache.pos < usize_mod
    → a ≢ 0
    → pop (push cache a).0
      ≡ (record cache { block = update cache.block (cache.pos % cache.size) 0 }, some a)
unfolding pop push
pop-push cache a h ne =
    let some_pointer : (a == 0) ≡ false = ground (arith, ne) in
    rw (
      back_again cache.pos h,
      update_self cache.block (cache.pos % cache.size) a,
      some_pointer,
      update-update cache.block (cache.pos % cache.size) a 0,
    )
