-- ===== src/Queue/RingQueue/Atomic/Gets.antt =====
-- A step of `maybeget` of `SizedRingQueue` (src/queue.rs) that waits for a value keeps a view of the
-- queue; the store of the state takes the value out of it.
use water_rs.Prelude.{
  suc, ◌<◌, ◌≡◌, refl, inl, inr, List, ◌∷◌, length, arith, ◌==◌, Bool-cases, true,
}
use water_rs.RawMessage.{usize_mod}
use water_rs.Queue.RingQueue.{SizedRingQueue, compare_and_swap}
use water_rs.Queue.RingQueue.Atomic.{Put, Get, get_step}
use water_rs.Queue.RingQueue.Atomic.View.{IsView}
use water_rs.Queue.RingQueue.Atomic.Taking.{full_first, taken_step, cleared, same_state}

module _ {A : Type 0} where
  -- A step of `maybeget` keeps the view.
  pub get_step-IsView :
      (q : SizedRingQueue A) (p : Put A) (c : Get A) (sent got : List A) (v : SizedRingQueue A)
      (xs : List A)
      → suc (length sent) < usize_mod
      → IsView (record { q = q; producer = p; consumer = c; sent = sent; got = got }) v xs
      → (v' : SizedRingQueue A) × (xs' : List A) × IsView
          (record {
            q = (get_step true c q).1;
            producer = p;
            consumer = (get_step true c q).0;
            sent = sent;
            got = got;
          })
          v'
          xs'
  unfolding get_step compare_and_swap
  get_step-IsView q p Get.idle sent got v xs bound w = (v, xs, w)
  get_step-IsView q p Get.entering sent got v xs bound w = (
    v,
    xs,
    record {
      held = w.held;
      size = w.size;
      tx = w.tx;
      rx = omega (arith, w.rx, w.numbered, w.held.tx);
      numbered = w.numbered;
      len_small = w.len_small;
      len = w.len;
      agree = w.agree;
      putting = w.putting;
      getting = let e : q.rx ≡ v.rx = omega (arith, w.rx) in rw (e, w.size) refl;
      sent = w.sent;
    },
  )
  get_step-IsView q p (Get.taking pos) sent got v xs bound w =
      elim (Bool-cases ((q.block pos).state == 2)) [
        | inl e ↦
            let (x, rest, es) =
              full_first q v p xs pos w.held w.getting (ground (arith, e))
                (λ n np. w.agree n np (λ h. h)) w.putting in
            rw e (v, x ∷ rest, taken_step q pos p sent got v x rest (rw es at w))
        | inr e ↦
            rw (e, same_state q pos)
              (
                v,
                xs,
                record {
                  held = w.held;
                  size = w.size;
                  tx = w.tx;
                  rx = w.rx;
                  numbered = w.numbered;
                  len_small = w.len_small;
                  len = w.len;
                  agree = w.agree;
                  putting = w.putting;
                  getting = tt;
                  sent = w.sent;
                },
              )
      ]
  get_step-IsView q p Get.undoing sent got v xs bound w = (
    v,
    xs,
    record {
      held = w.held;
      size = w.size;
      tx = w.tx;
      rx = omega (arith, w.rx, w.numbered, w.held.tx);
      numbered = w.numbered;
      len_small = w.len_small;
      len = w.len;
      agree = w.agree;
      putting = w.putting;
      getting = tt;
      sent = w.sent;
    },
  )
  get_step-IsView q p (Get.reading pos) sent got v xs bound w =
      let (slot, (x, rest, es, item)) = w.getting in
      (
        v,
        xs,
        record {
          held = w.held;
          size = w.size;
          tx = w.tx;
          rx = w.rx;
          numbered = w.numbered;
          len_small = w.len_small;
          len = w.len;
          agree = w.agree;
          putting = w.putting;
          getting = (slot, (x, rest, es, item, rw item refl));
          sent = w.sent;
        },
      )
  get_step-IsView q p (Get.clearing pos y) sent got v xs bound w =
      cleared q pos y p sent got v xs bound w
  get_step-IsView q p (Get.uncounting y) sent got v xs bound w = (
    v,
    xs,
    record {
      held = w.held;
      size = w.size;
      tx = w.tx;
      rx = w.rx;
      numbered = w.numbered;
      len_small = omega arith;
      len = omega (arith, w.len);
      agree = w.agree;
      putting = w.putting;
      getting = w.getting;
      sent = w.sent;
    },
  )
  get_step-IsView q p (Get.returned y) sent got v xs bound w = (v, xs, w)
