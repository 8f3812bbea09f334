-- ===== src/Queue/RingQueue/Atomic/Puts.antt =====
-- A step of `put` of `SizedRingQueue` (src/queue.rs) keeps a view of the queue; the store of the state
-- puts the value into it.
use water_rs.Prelude.{◌<◌, refl, ap, ◌∙◌, inl, inr, List, [], ◌∷◌, ◌++◌, some, length, arith}
use water_rs.RawMessage.{usize_mod}
use water_rs.Store.Alias.{update_self}
use water_rs.Queue.RingQueue.{SizedRingQueue, SizedRingQueueItem, compare_and_swap}
use water_rs.Queue.RingQueue.Order.{after_put}
use water_rs.Queue.RingQueue.Atomic.{Put, Get, put_step}
use water_rs.Queue.RingQueue.Atomic.View.{IsView}
use water_rs.Queue.RingQueue.Atomic.Filling.{rewritten, entered, stored}

module _ {A : Type 0} where
  -- A step of `put` keeps the view, and the last store of it adds the value that was sent.
  pub put_step-IsView :
      (q : SizedRingQueue A) (p : Put A) (c : Get A) (sent got : List A) (v : SizedRingQueue A)
      (xs : List A)
      → length sent < usize_mod
      → IsView (record { q = q; producer = p; consumer = c; sent = sent; got = got }) v xs
      → (v' : SizedRingQueue A) × (xs' : List A) × IsView
          (record {
            q = (put_step p q).1;
            producer = (put_step p q).0;
            consumer = c;
            sent = sent;
            got = got;
          })
          v'
          xs'
  unfolding put_step compare_and_swap
  put_step-IsView q Put.idle c sent got v xs bound w = (v, xs, w)
  put_step-IsView q (Put.entering t) c sent got v xs bound w =
      (v, xs, entered q t c sent got v xs bound w)
  put_step-IsView q (Put.claiming pos t) c sent got v xs bound w =
      let (room, slot, state) = w.putting in
      (
        v,
        xs,
        elim state [
          | inl e ↦ rw e (
              rewritten _ v xs (Put.claiming pos t) pos (record (q.block pos) { state = 1 }) w room
                slot (λ n h. h) refl refl refl refl
                (
                  room,
                  slot,
                  inr (
                      ap (λ (i : SizedRingQueueItem A). i.state)
                        (update_self q.block pos (record (q.block pos) { state = 1 }))),
                ))
          | inr e ↦ rw e (
              rewritten _ v xs (Put.copying pos t) pos (record (q.block pos) { state = 1 }) w room
                slot (λ n h. h) refl refl refl refl
                (
                  room,
                  slot,
                  ap (λ (i : SizedRingQueueItem A). i.state)
                      (update_self q.block pos (record (q.block pos) { state = 1 })),
                ))
        ],
      )
  put_step-IsView q (Put.copying pos t) c sent got v xs bound w =
      let (room, slot, e) = w.putting in
      (
        v,
        xs,
        rewritten _ v xs (Put.storing pos t) pos (record (q.block pos) { value = some t }) w room
            slot (λ n h. h) refl refl refl refl
            (
              room,
              slot,
              update_self q.block pos (record (q.block pos) { value = some t })
                  ∙ ap
                      (λ n.
                        let r : SizedRingQueueItem A = record { state = n; value = some t } in r)
                      e,
            ),
      )
  put_step-IsView q (Put.storing pos t) c sent got v xs bound w =
      (after_put v t, xs ++ (t ∷ []), stored q pos t c sent got v xs bound w)
  put_step-IsView q Put.counting c sent got v xs bound w = (
    v,
    xs,
    record {
      held = w.held;
      size = w.size;
      tx = w.tx;
      rx = w.rx;
      numbered = w.numbered;
      len_small = omega arith;
      len = omega (arith, w.len);
      agree = w.agree;
      putting = tt;
      getting = w.getting;
      sent = w.sent;
    },
  )
