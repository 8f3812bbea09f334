-- ===== src/Queue/RingQueue/Atomic/Receives.antt =====
-- A receiver that is left alone in `maybeget(true)` on a ring queue (src/queue.rs) gets the next value.
use water_rs.Prelude.{
  ℕ, suc, ◌+◌, ◌-◌, ◌%◌, ◌^◌, ◌<◌, ◌≡◌, ◌≢◌, refl, ap, ◌∙◌, inl, inr, ◌⊎◌, List, [], ◌∷◌, ◌++◌,
  none, some, length, arith, length-append,
}
use water_rs.RawMessage.{usize_mod}
use water_rs.Queue.RingQueue.{SizedRingQueue, SizedRingQueueItem}
use water_rs.Queue.RingQueue.Order.{Holds, front}
use water_rs.Queue.RingQueue.Atomic.{Put, Get, Ends, Reach, start}
use water_rs.Queue.RingQueue.Atomic.View.{IsView, in_hand}
use water_rs.Queue.RingQueue.Atomic.Runs.{Reach-IsView}
use water_rs.Queue.RingQueue.Atomic.Alone.{
  gets_alone, get_next, returned_stays, clearing_ends, reading_ends, taking_ends, entered_get,
  undone, uncounting_ends,
}

module _ {A : Type 0} where
  -- The slot at `rx` where the queue holds something and the receiver has not begun with it.
  ready :
      (q v : SizedRingQueue A) (x : A) (xs : List A) (pos : ℕ)
      → Holds v (x ∷ xs)
      → pos ≡ v.rx % v.size
      → ((n : ℕ) → q.block n ≡ v.block n)
      → q.block pos ≡ record { state = 2; value = some x }
  ready q v x xs pos h slot agree = agree pos ∙ rw slot (front v x xs h)

  -- With nothing in hand, the receiver takes the first value.
  getting_ends :
      (q : SizedRingQueue A) (c : Get A) (sent got : List A) (v : SizedRingQueue A) (x : A)
      (xs : List A)
      → suc (length sent) < usize_mod
      → IsView
          (record { q = q; producer = Put.idle; consumer = c; sent = sent; got = got })
          v
          (x ∷ xs)
      → c ≢ Get.idle
      → in_hand c ≡ []
      → (gets_alone 6 c q).0 ≡ Get.returned (some x)
  getting_ends q Get.idle sent got v x xs bound w busy h = absurd (busy refl)
  getting_ends q Get.entering sent got v x xs bound w busy h =
      let e : q.rx ≡ v.rx = omega (arith, w.rx) in
      get_next 5 _ _ q _ (some x) (entered_get q) (
        taking_ends 1 (q.rx % q.size) x _ (
          ready q v x xs (q.rx % q.size) w.held (rw (e, w.size) refl)
            (λ n. w.agree n (λ r. r) (λ r. r))))
  getting_ends q (Get.taking pos) sent got v x xs bound w busy h =
      taking_ends 2 pos x q (ready q v x xs pos w.held w.getting (λ n. w.agree n (λ r. r) (λ r. r)))
  getting_ends q Get.undoing sent got v x xs bound w busy h =
      let e : (q.rx + usize_mod - 1) % usize_mod ≡ v.rx =
        omega (arith, w.rx, w.numbered, w.held.tx) in
      get_next 5 _ _ q _ (some x) (undone q) (
        get_next 4 _ _ _ _ (some x) (entered_get _) (
          taking_ends 0 ((q.rx + usize_mod - 1) % usize_mod % q.size) x _
            (ready q v x xs _ w.held (rw (e, w.size) refl) (λ n. w.agree n (λ r. r) (λ r. r)))))
  getting_ends q (Get.reading pos) sent got v x xs bound w busy h =
      let (slot, (y, rest, es, item)) = w.getting in
      reading_ends 3 pos (some x) q
        (ap (λ (i : SizedRingQueueItem A). i.value) item ∙ (let e : some y ≡ some x = cc in e))
  getting_ends q (Get.clearing pos t) sent got v x xs bound w busy h =
      let (slot, (y, rest, es, item, et)) = w.getting in
      clearing_ends 4 pos t q ∙ ap Get.returned (et ∙ (let e : some y ≡ some x = cc in e))
  getting_ends q (Get.uncounting none) sent got v x xs bound w busy h = let (y, e) = w.getting in cc
  getting_ends q (Get.uncounting (some t)) sent got v x xs bound w busy h = cc
  getting_ends q (Get.returned none) sent got v x xs bound w busy h = let (y, e) = w.getting in cc
  getting_ends q (Get.returned (some t)) sent got v x xs bound w busy h = cc

  hand_cases :
      (c : Get A)
      → (in_hand c ≡ [])
        ⊎ ((x : A) × (in_hand c ≡ x ∷ [])
            × ((q : SizedRingQueue A) → (gets_alone 6 c q).0 ≡ Get.returned (some x)))
  hand_cases Get.idle = inl refl
  hand_cases Get.entering = inl refl
  hand_cases (Get.taking pos) = inl refl
  hand_cases Get.undoing = inl refl
  hand_cases (Get.reading pos) = inl refl
  hand_cases (Get.clearing pos t) = inl refl
  hand_cases (Get.uncounting none) = inl refl
  hand_cases (Get.uncounting (some x)) = inr (x, refl, uncounting_ends 5 (some x))
  hand_cases (Get.returned none) = inl refl
  hand_cases (Get.returned (some x)) = inr (x, refl, returned_stays 6 (some x))

  -- What the view gives to a receiver that is left alone.
  next_got :
      (q : SizedRingQueue A) (c : Get A) (sent got : List A) (v : SizedRingQueue A) (xs : List A)
      → suc (length sent) < usize_mod
      → IsView (record { q = q; producer = Put.idle; consumer = c; sent = sent; got = got }) v xs
      → c ≢ Get.idle
      → length got < length sent
      → (x : A) × (rest : List A) × (sent ≡ got ++ (x ∷ rest))
        × ((gets_alone 6 c q).0 ≡ Get.returned (some x))
  next_got q c sent got v xs bound w busy more = elim (hand_cases c) [
    | inr (x, h, ends) ↦ (x, xs ++ [], rw h at w.sent, ends q)
    | inl h ↦ waiting h xs (rw h at w.sent) w
  ]
    where
      waiting :
          in_hand c ≡ []
          → (xs : List A) → sent ≡ got ++ (xs ++ [])
          → IsView
              (record { q = q; producer = Put.idle; consumer = c; sent = sent; got = got })
              v
              xs
          → (x : A) × (rest : List A) × (sent ≡ got ++ (x ∷ rest))
            × ((gets_alone 6 c q).0 ≡ Get.returned (some x))
      waiting h [] e w = absurd (omega (arith, length-append got [], ap length e))
      waiting h (x ∷ xs) e w = (x, xs ++ [], e, getting_ends q c sent got v x xs bound w busy h)

  -- The sender has finished its calls and not all of the values that were sent have been received: a
  -- receiver that is in `maybeget(true)` gets the next of them after at most six more accesses.
  pub Reach-receives :
      (bsize : ℕ) (s : Ends A)
      → 2 ^ bsize < usize_mod
      → Reach (start bsize) s
      → suc (length s.sent) < usize_mod
      → s.producer ≡ Put.idle
      → s.consumer ≢ Get.idle
      → length s.got < length s.sent
      → (x : A) × (rest : List A) × (s.sent ≡ s.got ++ (x ∷ rest))
        × ((gets_alone 6 s.consumer s.q).0 ≡ Get.returned (some x))
  Reach-receives bsize s small run bound p c more =
      let (v, xs, w) = Reach-IsView bsize s small run bound in
      next_got s.q s.consumer s.sent s.got v xs bound (rw p at w) c more
