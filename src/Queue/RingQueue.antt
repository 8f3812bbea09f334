-- ===== src/Queue/RingQueue.antt =====
-- `SizedRingQueue` of src/queue.rs, each method run without interruption; the single accesses are in
-- Atomic. The block of memory is a function of the position; `value` is `none` while nothing was copied
-- there. The mask is 2 ^ n - 1 for some n, so that `& mask` is the remainder by the number of slots,
-- `size`.
pub mod Slots
pub mod Order
pub mod Limits
pub mod Atomic
mod Tests
use water_rs.Prelude.{
  ℕ, zero, suc, ◌+◌, ◌-◌, ◌%◌, ◌^◌, Bool, true, false, Option, none, some, ◌==◌, if◌then◌else◌,
}
use water_rs.RawMessage.{usize_mod}
use water_rs.Store.{update}

pub record SizedRingQueueItem {ℓ} (A : Type ℓ) : Type ℓ where
  pub state : ℕ
  pub value : Option A

pub record SizedRingQueue {ℓ} (A : Type ℓ) : Type ℓ where
  pub block : ℕ → SizedRingQueueItem A
  pub size : ℕ
  pub len : ℕ
  pub tx : ℕ
  pub rx : ℕ

-- `compare_and_swap`: the old value, and the value behind it.
unfoldable pub compare_and_swap : ℕ → ℕ → ℕ → ℕ × ℕ
compare_and_swap current old new = (current, if current == old then new else current)

-- `while state.compare_and_swap(0, 1) == 0 { yield_now() }`: the state behind the loop, or `none` if
-- `fuel` rounds do not end it.
unfoldable pub claim : ℕ → ℕ → Option ℕ
unfolding compare_and_swap
claim zero state = none
claim (suc fuel) state =
    let (old, state') = compare_and_swap state 0 1 in
    let again = claim fuel state' in if old == 0 then again else some state'

module _ {ℓ} {A : Type ℓ} where
  unfoldable pub new : ℕ → SizedRingQueue A
  new bsize = record {
    block = λ pos. record { state = 0; value = none };
    size = 2 ^ bsize;
    len = 0;
    tx = 0;
    rx = 0;
  }

  -- Two rounds of the loop are enough: the first claims a free slot, the second sees it claimed.
  unfoldable pub put : SizedRingQueue A → A → Option (SizedRingQueue A)
  put q t =
      let pos = q.tx % q.size in
      elim (claim 2 (q.block pos).state) [
        | none ↦ none
        | some state ↦ some (record q {
          block = update q.block pos (record { state = 2; value = some t });
          tx = (q.tx + 1) % usize_mod;
          len = (q.len + 1) % usize_mod;
        })
      ]

  -- `maybeget(false)`, which `get` calls.
  unfoldable pub get : SizedRingQueue A → Option A × SizedRingQueue A
  unfolding compare_and_swap
  get q =
      let pos = q.rx % q.size in
      let item = q.block pos in
      let moved = record q { rx = (q.rx + 1) % usize_mod } in
      if item.state == 2
      then (
        item.value,
        record moved {
          block = update q.block pos (record { state = 0; value = item.value });
          len = (q.len + usize_mod - 1) % usize_mod;
        },
      )
      else (none, moved)
