-- ===== src/Queue/RingQueue/Limits.antt =====
-- `SizedRingQueue` (src/queue.rs) at its ends: a read when it is empty and a write when it is full.
use water_rs.Prelude.{◌+◌, ◌%◌, ◌<◌, ◌≡◌, ◌≢◌, List, [], ◌∷◌, none, some, arith, length, ap, ◌∙◌}
use native.Mathlib.Nat.{add-mod_right}
use water_rs.RawMessage.{usize_mod}
use water_rs.Store.{update}
use water_rs.Store.Alias.{update_self, update_ne}
use water_rs.Queue.RingQueue.{SizedRingQueue, SizedRingQueueItem, put, get}
use water_rs.Queue.RingQueue.Order.{Holds, after_put, put-after}
use water_rs.Queue.RingQueue.Slots.{slots-ne}

module _ {ℓ} {A : Type ℓ} where
  -- `get` at a slot that is free moves on all the same.
  get-free_slot :
      (q : SizedRingQueue A)
      → (q.block (q.rx % q.size)).state ≡ 0
      → get q ≡ (none, record q { rx = (q.rx + 1) % usize_mod })
  unfolding get
  get-free_slot q e = rw e

  -- The slot that `put` leaves free once `get` has passed an empty slot.
  passed-free :
      (q : SizedRingQueue A) (t : A)
      → Holds q []
      → 1 < q.size
      → q.tx + 1 < usize_mod
      → ((after_put (record q { rx = (q.rx + 1) % usize_mod }) t).block
          (((q.rx + 1) % usize_mod) % q.size)).state
        ≡ 0
  unfolding after_put
  passed-free q t h two small =
      let next : (q.rx + 1) % usize_mod ≡ q.rx + 1 = omega (arith, h.tx) in
      let apart : (q.rx + 0) % q.size ≢ (q.rx + 1) % q.size =
        slots-ne q.size q.rx 0 1 (omega arith) two (λ e. omega arith) in
      rw (next, h.tx)
        (ap (λ (i : SizedRingQueueItem A). i.state)
            (update_ne q.block ((q.rx + 0) % q.size) ((q.rx + 1) % q.size)
              (record { state = 2; value = some t }) apart)
          ∙ h.free 1 (omega arith) two)

  -- A read of an empty queue with two slots or more, whose positions do not overflow, loses the
  -- next value: after `get` has failed once, the value that is put in is counted but not found
  -- by the next `get`.
  pub get_empty-loses :
      (q : SizedRingQueue A) (t : A)
      → Holds q []
      → 1 < q.size
      → q.tx + 1 < usize_mod
      → ((get q).0 ≡ none)
        × ((q' : SizedRingQueue A) × (put (get q).1 t ≡ some q')
            × ((get q').0 ≡ none)
            × (q'.len ≡ 1))
  get_empty-loses q t h two small =
      let passed = record q { rx = (q.rx + 1) % usize_mod } in
      let empty : get q ≡ (none, passed) = get-free_slot q (
        ap (λ n. (q.block (n % q.size)).state) (let e : q.rx ≡ q.rx + 0 = omega arith in e)
        ∙ h.free 0 (omega arith) (omega arith)) in
      (
        ap (λ r. r.0) empty,
        (
          after_put passed t,
          rw empty (put-after passed t),
          ap (λ r. r.0)
              (get-free_slot (after_put passed t)
                (unfold after_put in (passed-free q t h two small))),
          unfold after_put in (omega (arith, h.len)),
        ),
      )

  -- A write to a full queue of fewer than 2 ^ 64 - 1 slots replaces the oldest value: the next
  -- `get` finds the new one, and the count exceeds the number of slots.
  pub put_full-overwrites :
      (q : SizedRingQueue A) (x t : A) (xs : List A)
      → Holds q (x ∷ xs)
      → length (x ∷ xs) ≡ q.size
      → q.size + 1 < usize_mod
      → (q' : SizedRingQueue A) × (put q t ≡ some q')
        × ((get q').0 ≡ some t)
        × (q'.len ≡ q.size + 1)
  unfolding get after_put
  put_full-overwrites q x t xs h full small =
      let round : q.tx % q.size ≡ q.rx % q.size =
        ap (λ n. n % q.size) (let e : q.tx ≡ q.rx + q.size = omega (arith, h.tx) in e)
        ∙ add-mod_right q.rx q.size in
      let there : update q.block (q.tx % q.size) (record { state = 2; value = some t })
            (q.rx % q.size)
          ≡ record { state = 2; value = some t } =
        rw round (update_self q.block (q.rx % q.size) (record { state = 2; value = some t })) in
      (after_put q t, put-after q t, rw there, omega (arith, h.len))
