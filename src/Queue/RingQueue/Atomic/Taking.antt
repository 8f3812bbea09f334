-- ===== src/Queue/RingQueue/Atomic/Taking.antt =====
-- What the receiver does to its slot of a ring queue (src/queue.rs), and the view of the queue.
use water_rs.Prelude.{
  fun_ext, ℕ, suc, ◌%◌, ◌<◌, ◌≡◌, refl, sym, ap, ◌∙◌, ◌⊎◌, inl, inr, List, [], ◌∷◌, Option, some,
  length, arith, ◌==◌, Bool-cases,
}
use water_rs.RawMessage.{usize_mod}
use water_rs.Store.Alias.{update_self, update_ne}
use water_rs.Queue.RingQueue.{SizedRingQueue, SizedRingQueueItem}
use water_rs.Queue.RingQueue.Order.{Holds, after_get, get-Holds, front}
use water_rs.Queue.RingQueue.Atomic.{Put, Get, set_state}
use water_rs.Queue.RingQueue.Atomic.View.{IsView, Writes, IsPutting}
use water_rs.Queue.RingQueue.Atomic.Slots.{free_slot, not_written, IsPutting-kept, IsPutting-shrunk}
use water_rs.Queue.RingQueue.Atomic.Filling.{agree_stored}

module _ {A : Type 0} where
  abbrev with_state : ℕ → SizedRingQueueItem A → SizedRingQueueItem A
  with_state n i = record i { state = n }

  -- The free slot at `rx` of an empty queue is not in state 2, whatever the sender does to it.
  empty-not_full :
      (q v : SizedRingQueue A) (p : Put A) (at : ℕ)
      → Holds v []
      → at ≡ v.rx % v.size
      → (q.block at).state ≡ 2
      → ((n : ℕ) → ¬ Writes p n → q.block n ≡ v.block n)
      → IsPutting q.block v.size (v.tx % v.size) [] p
      → ⊥
  empty-not_full q v p at h e full agree put = at_state p agree put
    where
      same : v.rx % v.size ≡ v.tx % v.size
      same = let t : v.rx ≡ v.tx = omega (arith, h.tx) in rw t refl

      free : (v.block at).state ≡ 0
      free = rw (e, same) (free_slot v [] h h.sized)

      slot_is : (pos : ℕ) → pos ≡ v.tx % v.size → pos ≡ at
      slot_is pos slot = slot ∙ sym same ∙ sym e

      claimed :
          (pos : ℕ)
          → pos ≡ v.tx % v.size
          → ((q.block pos).state ≡ 0) ⊎ ((q.block pos).state ≡ 1)
          → ⊥
      claimed pos slot (inl st) = let f = rw (slot_is pos slot) at st in omega (arith, f, full)
      claimed pos slot (inr st) = let f = rw (slot_is pos slot) at st in omega (arith, f, full)

      at_state :
          (p : Put A)
          → ((n : ℕ) → ¬ Writes p n → q.block n ≡ v.block n)
          → IsPutting q.block v.size (v.tx % v.size) [] p
          → ⊥
      at_state Put.idle agree put =
          omega (arith, full, free, ap (λ (i : SizedRingQueueItem A). i.state) (agree at (λ h. h)))
      at_state (Put.entering t) agree put =
          omega (arith, full, free, ap (λ (i : SizedRingQueueItem A). i.state) (agree at (λ h. h)))
      at_state Put.counting agree put =
          omega (arith, full, free, ap (λ (i : SizedRingQueueItem A). i.state) (agree at (λ h. h)))
      at_state (Put.claiming pos t) agree (room, slot, st) = claimed pos slot st
      at_state (Put.copying pos t) agree (room, slot, st) =
          let f = rw (slot_is pos slot) at st in omega (arith, f, full)
      at_state (Put.storing pos t) agree (room, slot, st) =
          let f = rw (slot_is pos slot) at st in
          omega (arith, full, ap (λ (i : SizedRingQueueItem A). i.state) f)

  -- So what is read is the oldest value.
  pub full_first :
      (q v : SizedRingQueue A) (p : Put A) (xs : List A) (at : ℕ)
      → Holds v xs
      → at ≡ v.rx % v.size
      → (q.block at).state ≡ 2
      → ((n : ℕ) → ¬ Writes p n → q.block n ≡ v.block n)
      → IsPutting q.block v.size (v.tx % v.size) xs p
      → (x : A) × (rest : List A) × (xs ≡ x ∷ rest)
  full_first q v p (x ∷ xs) at h e full agree put = (x, xs, refl)
  full_first q v p [] at h e full agree put = absurd (empty-not_full q v p at h e full agree put)

  pub taken_step :
      (q : SizedRingQueue A) (pos : ℕ) (p : Put A) (sent got : List A) (v : SizedRingQueue A)
      (x : A) (xs : List A)
      → IsView
          (record { q = q; producer = p; consumer = Get.taking pos; sent = sent; got = got })
          v
          (x ∷ xs)
      → IsView
          (record {
            q = set_state q pos 3;
            producer = p;
            consumer = Get.reading pos;
            sent = sent;
            got = got;
          })
          v
          (x ∷ xs)
  taken_step q pos p sent got v x xs w =
      let clear : ¬ Writes p pos = rw w.getting (not_written v x xs q.block p w.held w.putting) in
      let item : q.block pos ≡ record { state = 2; value = some x } =
        w.agree pos clear (λ h. h) ∙ rw w.getting (front v x xs w.held) in
      record {
        held = w.held;
        size = w.size;
        tx = w.tx;
        rx = w.rx;
        numbered = w.numbered;
        len_small = w.len_small;
        len = w.len;
        agree = λ n np nc.
            update_ne q.block pos n (record (q.block pos) { state = 3 }) nc ∙ w.agree n np (λ h. h);
        putting =
            IsPutting-kept q.block pos (record (q.block pos) { state = 3 }) v.size (v.tx % v.size)
              (x ∷ xs) p clear w.putting;
        getting = (
          w.getting,
          (
            x,
            xs,
            refl,
            update_self q.block pos (record (q.block pos) { state = 3 }) ∙ ap (with_state 3) item,
          ),
        );
        sent = w.sent;
      }

  -- The slot is read, and its state is as good as 0 for the sender.
  pub cleared :
      (q : SizedRingQueue A) (pos : ℕ) (y : Option A) (p : Put A) (sent got : List A)
      (v : SizedRingQueue A) (xs : List A)
      → suc (length sent) < usize_mod
      → IsView
          (record { q = q; producer = p; consumer = Get.clearing pos y; sent = sent; got = got })
          v
          xs
      → (v' : SizedRingQueue A) × (xs' : List A) × IsView
          (record {
            q = set_state q pos 0;
            producer = p;
            consumer = Get.uncounting y;
            sent = sent;
            got = got;
          })
          v'
          xs'
  unfolding after_get
  cleared q pos y p sent got v xs bound w =
      let (slot, (x, rest, es, item, ey)) = w.getting in
      let held : Holds v (x ∷ rest) = rw (← es) w.held in
      let put : IsPutting q.block v.size (v.tx % v.size) (x ∷ rest) p = rw (← es) w.putting in
      let clear : ¬ Writes p pos = rw slot (not_written v x rest q.block p held put) in
      let first : v.block pos ≡ record { state = 2; value = some x } =
        rw slot (front v x rest held) in
      (
        after_get v,
        rest,
        record {
          held = get-Holds v x rest held (omega (arith, w.numbered));
          size = w.size;
          tx = w.tx;
          rx = omega (arith, w.rx, w.numbered, held.tx);
          numbered = w.numbered;
          len_small = w.len_small;
          len = omega (arith, w.len, held.len, held.fits, held.small);
          agree = λ n np nc. rw (← slot) (
              agree_stored q.block v.block pos n _
                (record { state = 0; value = (v.block pos).value })
                (ap (with_state 0) item ∙ sym (ap (with_state 0) first)) (λ ne. w.agree n np ne));
          putting =
              IsPutting-kept q.block pos (record (q.block pos) { state = 0 }) v.size (v.tx % v.size)
                rest p clear (IsPutting-shrunk q.block v.size (v.tx % v.size) x rest p put);
          getting = (x, ey);
          sent = w.sent ∙ rw (ey, es) refl;
        },
      )

  pub same_state : (q : SizedRingQueue A) (pos : ℕ) → set_state q pos (q.block pos).state ≡ q
  same_state q pos =
      ap (λ (b : ℕ → SizedRingQueueItem A). let r : SizedRingQueue A = record q { block = b } in r)
        (fun_ext (λ n. elim (Bool-cases (pos == n)) [
          | inl h ↦ rw h (ap q.block (let e : pos ≡ n = ground (arith, h) in e))
          | inr h ↦ rw h refl
        ]))
