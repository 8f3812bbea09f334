-- ===== src/Queue/PointerCache/Slots.antt =====
-- A new `PointerCache` (src/queue.rs) has room and is empty.
use water_rs.Prelude.{ℕ, zero, suc, ◌^◌, ◌<◌, ◌≡◌, arith}
use water_rs.Queue.PointerCache.{new, init_loop}

init_loop-empty : (count : ℕ) (block : ℕ → ℕ) (k : ℕ) → k < count → init_loop count block k ≡ 0
unfolding init_loop
init_loop-empty zero block k h = absurd (omega arith)
init_loop-empty (suc count) block k h = ground (arith, init_loop-empty count block k)

pub pow_pos : (n : ℕ) → 0 < 2 ^ n
pow_pos zero = omega arith
pow_pos (suc n) = omega (arith, pow_pos n)

pub new_room : (block : ℕ → ℕ) (bsize : ℕ) → 0 < (new block bsize).size
unfolding new
new_room block bsize = pow_pos bsize

pub new_empty :
    (block : ℕ → ℕ) (bsize k : ℕ) → k < (new block bsize).size → (new block bsize).block k ≡ 0
unfolding new
new_empty block bsize k h = init_loop-empty (2 ^ bsize) block k h
