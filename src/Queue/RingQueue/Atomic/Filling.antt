-- ===== src/Queue/RingQueue/Atomic/Filling.antt =====
-- What the sender does to its slot of a ring queue (src/queue.rs), and the view of the queue.
use water_rs.Prelude.{
  ℕ, ◌+◌, ◌%◌, ◌<◌, ◌≡◌, refl, sym, ap, ◌∙◌, ◌≢◌, inl, inr, List, [], ◌∷◌, ◌++◌, some, length,
  arith, append-nil, ◌==◌, Bool-cases,
}
use water_rs.RawMessage.{usize_mod}
use water_rs.Store.{update}
use water_rs.Store.Alias.{update_ne}
use water_rs.Queue.RingQueue.{SizedRingQueue, SizedRingQueueItem}
use water_rs.Queue.RingQueue.Order.{after_put, put-Holds}
use water_rs.Queue.RingQueue.Atomic.{Put, Get, Ends, set_state}
use water_rs.Queue.RingQueue.Atomic.View.{
  IsView, Writes, IsPutting, tx_ahead, to_count, offered, in_hand,
}
use water_rs.Queue.RingQueue.Atomic.Slots.{free_slot, not_read, IsGetting-kept, IsGetting-grown}

module _ {A : Type 0} where
  -- A store to the slot at `tx` that does not fill it.
  pub rewritten :
      (s : Ends A) (v : SizedRingQueue A) (xs : List A) (p : Put A) (at : ℕ)
      (item : SizedRingQueueItem A)
      → IsView s v xs
      → length xs < v.size
      → at ≡ v.tx % v.size
      → ((n : ℕ) → Writes s.producer n → at ≡ n)
      → Writes p at
      → tx_ahead s.producer ≡ tx_ahead p
      → to_count s.producer ≡ to_count p
      → offered s.producer ≡ offered p
      → IsPutting (update s.q.block at item) v.size (v.tx % v.size) xs p
      → IsView (record s { producer = p; q = record s.q { block = update s.q.block at item } }) v xs
  rewritten s v xs p at item w room e before after tx count offer putting = record {
    held = w.held;
    size = w.size;
    tx = w.tx ∙ ap (λ n. v.tx + n) tx;
    rx = w.rx;
    numbered = rw (← offer) w.numbered;
    len_small = w.len_small;
    len = rw (← count) w.len;
    agree = λ n np nc.
        let ne : at ≢ n = λ h. np (rw (← h) after) in
        update_ne s.q.block at n item ne ∙ w.agree n (λ h. ne (before n h)) nc;
    putting = putting;
    getting =
        IsGetting-kept s.q.block at item (v.rx % v.size) xs s.consumer
          (rw e (not_read v xs s.q.block s.consumer w.held room w.getting)) w.getting;
    sent = rw (← offer) w.sent;
  }

  -- A slot that both write holds the same.
  pub agree_stored :
      (b v : ℕ → SizedRingQueueItem A) (at n : ℕ) (i j : SizedRingQueueItem A)
      → i ≡ j
      → (at ≢ n → b n ≡ v n)
      → update b at i n ≡ update v at j n
  agree_stored b v at n i j e agree = elim (Bool-cases (at == n)) [
    | inl h ↦ rw h e
    | inr h ↦ rw h (agree (λ same. ground (arith, h, same)))
  ]

  pub entered :
      (q : SizedRingQueue A) (t : A) (c : Get A) (sent got : List A) (v : SizedRingQueue A)
      (xs : List A)
      → length sent < usize_mod
      → IsView
          (record { q = q; producer = Put.entering t; consumer = c; sent = sent; got = got })
          v
          xs
      → IsView
          (record {
            q = record q { tx = (q.tx + 1) % usize_mod };
            producer = Put.claiming (q.tx % q.size) t;
            consumer = c;
            sent = sent;
            got = got;
          })
          v
          xs
  entered q t c sent got v xs bound w =
      let slot : q.tx % q.size ≡ v.tx % v.size =
        let e : q.tx ≡ v.tx = omega (arith, w.tx) in rw (e, w.size) refl in
      let free : (q.block (q.tx % q.size)).state ≡ 0 =
        rw
          (
            w.agree (q.tx % q.size) (λ h. h)
                (rw slot (not_read v xs q.block c w.held w.putting w.getting)),
            slot,
          )
          (free_slot v xs w.held w.putting) in
      record {
        held = w.held;
        size = w.size;
        tx = omega (arith, w.tx, w.numbered);
        rx = w.rx;
        numbered = w.numbered;
        len_small = w.len_small;
        len = w.len;
        agree = λ n np nc. w.agree n (λ h. h) nc;
        putting = (w.putting, slot, inl free);
        getting = w.getting;
        sent = w.sent;
      }

  pub stored :
      (q : SizedRingQueue A) (pos : ℕ) (t : A) (c : Get A) (sent got : List A)
      (v : SizedRingQueue A) (xs : List A)
      → length sent < usize_mod
      → IsView
          (record { q = q; producer = Put.storing pos t; consumer = c; sent = sent; got = got })
          v
          xs
      → IsView
          (record {
            q = set_state q pos 2;
            producer = Put.counting;
            consumer = c;
            sent = sent;
            got = got;
          })
          (after_put v t)
          (xs ++ (t ∷ []))
  unfolding after_put
  stored q pos t c sent got v xs bound w =
      let (room, slot, item) = w.putting in
      record {
        held = put-Holds v xs t w.held room (omega (arith, w.numbered));
        size = w.size;
        tx = omega (arith, w.tx, w.numbered);
        rx = w.rx;
        numbered = omega (arith, w.numbered);
        len_small = w.len_small;
        len = omega (arith, w.len);
        agree = λ n np nc. rw (← slot) (
            agree_stored q.block v.block pos n _ (record { state = 2; value = some t })
              (ap
                (λ (i : SizedRingQueueItem A).
                  let r : SizedRingQueueItem A = record i { state = 2 } in r)
                item)
              (λ ne. w.agree n ne nc));
        putting = tt;
        getting =
            IsGetting-grown (update q.block pos (record (q.block pos) { state = 2 }))
              (v.rx % v.size) xs t c
              (IsGetting-kept q.block pos (record (q.block pos) { state = 2 }) (v.rx % v.size) xs c
                (rw slot (not_read v xs q.block c w.held room w.getting)) w.getting);
        sent = w.sent ∙ sym (ap (λ ys. got ++ (in_hand c ++ ys)) (append-nil (xs ++ (t ∷ []))));
      }
