-- ===== src/Queue/PointerCache.antt =====
-- `PointerCache` of src/queue.rs, each method run without interruption. A pointer is a number, 0 is
-- null. The block is a function of the position; the mask is 2 ^ n - 1 for some n, so that `& mask`
-- is the remainder by the number of slots, `size`.
pub mod Slots
pub mod Stack
use water_rs.Prelude.{ℕ, zero, suc, ◌+◌, ◌-◌, ◌%◌, ◌^◌, Option, none, some, ◌==◌, if◌then◌else◌}
use water_rs.RawMessage.{usize_mod}
use water_rs.Store.{update}

pub record PointerCache : Type 0 where
  pub block : ℕ → ℕ
  pub size : ℕ
  pub pos : ℕ

unfoldable pub init : (ℕ → ℕ) → ℕ → ℕ → ℕ
init block pos = update block pos 0

-- The loop of `new` over the slots.
unfoldable pub init_loop : ℕ → (ℕ → ℕ) → ℕ → ℕ
unfolding init
init_loop zero block = block
init_loop (suc count) block = init (init_loop count block) count

-- `block` is what the memory holds that `allocate` returns.
unfoldable pub new : (ℕ → ℕ) → ℕ → PointerCache
new block bsize = record { block = init_loop (2 ^ bsize) block; size = 2 ^ bsize; pos = 0 }

unfoldable pub get : PointerCache → ℕ → ℕ
get cache pos = cache.block pos

unfoldable pub pop : PointerCache → PointerCache × Option ℕ
unfolding get
pop cache =
    let back = (cache.pos + usize_mod - 1) % usize_mod in
    let pos = back % cache.size in
    let old = get cache pos in
    (
      record cache { block = update cache.block pos 0; pos = back },
      if old == 0 then none else some old,
    )

-- The cache, and the pointer that it gives up to be deallocated, if it is not null.
unfoldable pub push : PointerCache → ℕ → PointerCache × ℕ
unfolding get
push cache new =
    let pos = cache.pos % cache.size in
    (
      record cache { block = update cache.block pos new; pos = (cache.pos + 1) % usize_mod },
      get cache pos,
    )

-- The loop of `drop`: what it gives up to be deallocated.
unfoldable pub drop_loop : ℕ → PointerCache → PointerCache
unfolding push
drop_loop zero cache = cache
drop_loop (suc count) cache = drop_loop count (push cache 0).0

unfoldable pub drop : PointerCache → PointerCache
unfolding drop_loop
drop cache = drop_loop cache.size cache
