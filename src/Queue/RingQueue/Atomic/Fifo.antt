-- ===== src/Queue/RingQueue/Atomic/Fifo.antt =====
-- A ring queue (src/queue.rs) between one sender and one receiver, whose atomic accesses interleave.
use water_rs.Prelude.{
  fun_ext, ℕ, suc, ◌+◌, ◌%◌, ◌^◌, ◌<◌, ◌≤◌, ◌≡◌, refl, ap, ◌∙◌, List, ◌++◌, Option, none, some,
  length, length-append, arith, append-nil,
}
use water_rs.RawMessage.{usize_mod}
use water_rs.Queue.RingQueue.{SizedRingQueue, SizedRingQueueItem}
use water_rs.Queue.RingQueue.Order.{Holds}
use water_rs.Queue.RingQueue.Atomic.{Put, Get, Ends, Reach, start}
use water_rs.Queue.RingQueue.Atomic.View.{IsView, IsPutting, offered, in_hand, value_list}
use water_rs.Queue.RingQueue.Atomic.Runs.{Reach-IsView}

module _ {A : Type 0} where
  value_one : (t : Option A) → length (value_list t) ≤ 1
  value_one none = omega arith
  value_one (some t) = omega arith

  hand_one : (c : Get A) → length (in_hand c) ≤ 1
  hand_one Get.idle = omega arith
  hand_one Get.entering = omega arith
  hand_one (Get.taking pos) = omega arith
  hand_one Get.undoing = omega arith
  hand_one (Get.reading pos) = omega arith
  hand_one (Get.clearing pos t) = omega arith
  hand_one (Get.uncounting t) = value_one t
  hand_one (Get.returned t) = value_one t

  -- A value is only offered where there is room for it.
  offered_room :
      (block : ℕ → SizedRingQueueItem A) (size slot : ℕ) (xs : List A) (p : Put A)
      → length xs ≤ size
      → IsPutting block size slot xs p
      → length xs + length (offered p) ≤ size
  offered_room block size slot xs Put.idle fits h = omega arith
  offered_room block size slot xs (Put.entering t) fits h = omega (arith, h)
  offered_room block size slot xs (Put.claiming pos t) fits (room, e, st) = omega (arith, room)
  offered_room block size slot xs (Put.copying pos t) fits (room, e, st) = omega (arith, room)
  offered_room block size slot xs (Put.storing pos t) fits (room, e, st) = omega (arith, room)
  offered_room block size slot xs Put.counting fits h = omega arith

  -- Between calls the queue is the view.
  at_rest_same :
      (q : SizedRingQueue A) (sent got : List A) (v : SizedRingQueue A) (xs : List A)
      → IsView
          (record { q = q; producer = Put.idle; consumer = Get.idle; sent = sent; got = got })
          v
          xs
      → (q ≡ v) × (sent ≡ got ++ xs)
  at_rest_same q sent got v xs w =
      let tx : q.tx ≡ v.tx = omega (arith, w.tx) in
      let rx : q.rx ≡ v.rx = omega (arith, w.rx) in
      let len : q.len ≡ v.len =
        omega (arith, w.len, w.len_small, w.held.len, w.held.fits, w.held.small) in
      (
        ap
              (λ (b : ℕ → SizedRingQueueItem A).
                let r : SizedRingQueue A = record q { block = b } in r)
              (fun_ext (λ p. w.agree p (λ h. h) (λ h. h)))
            ∙ rw (tx, rx, len, w.size) refl,
        w.sent ∙ ap (λ ys. got ++ ys) (append-nil xs),
      )

  -- The sender calls `put` when `len()` is less than the number of slots, the receiver `maybeget(true)`,
  -- and their atomic accesses may alternate in any order. As long as fewer than 2^64 - 1 values were
  -- sent, the receiver has got the first of the values that were sent, in their order, and all but at
  -- most one more than there are slots.
  pub Reach-fifo :
      (bsize : ℕ) (s : Ends A)
      → 2 ^ bsize < usize_mod
      → Reach (start bsize) s
      → suc (length s.sent) < usize_mod
      → (rest : List A) × (s.sent ≡ s.got ++ rest) × (length rest ≤ suc s.q.size)
  Reach-fifo bsize s small run bound =
      let (v, xs, w) = Reach-IsView bsize s small run bound in
      (
        in_hand s.consumer ++ (xs ++ offered s.producer),
        w.sent,
        omega (
          arith,
          length-append (in_hand s.consumer) (xs ++ offered s.producer),
          length-append xs (offered s.producer),
          hand_one s.consumer,
          w.size,
          offered_room s.q.block v.size (v.tx % v.size) xs s.producer w.held.fits w.putting,
        ),
      )

  -- And when neither is in a call, the queue holds the others, oldest first, as one that was used by
  -- one thread only.
  pub Reach-at_rest :
      (bsize : ℕ) (s : Ends A)
      → 2 ^ bsize < usize_mod
      → Reach (start bsize) s
      → suc (length s.sent) < usize_mod
      → s.producer ≡ Put.idle
      → s.consumer ≡ Get.idle
      → (xs : List A) × (s.sent ≡ s.got ++ xs) × Holds s.q xs
  Reach-at_rest bsize s small run bound p c =
      let (v, xs, w) = Reach-IsView bsize s small run bound in
      let (same, sent) = at_rest_same s.q s.sent s.got v xs (rw (p, c) at w) in
      (xs, sent, rw same w.held)
