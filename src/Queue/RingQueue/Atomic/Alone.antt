-- ===== src/Queue/RingQueue/Atomic/Alone.antt =====
-- A thread that is left alone in a call on a ring queue (src/queue.rs), from where it stands.
use water_rs.Prelude.{
  ℕ, zero, suc, ◌+◌, ◌-◌, ◌%◌, ◌≡◌, refl, ap, ◌∙◌, inl, inr, true, false, Bool-cases, Option, some,
  ◌==◌,
}
use water_rs.RawMessage.{usize_mod}
use water_rs.Store.Alias.{update_self}
use water_rs.Queue.RingQueue.{SizedRingQueue, SizedRingQueueItem, compare_and_swap}
use water_rs.Queue.RingQueue.Atomic.{Put, Get, set_state, put_step, get_step}

module _ {A : Type 0} where
  -- So many steps of the one thread.
  unfoldable pub puts_alone : ℕ → Put A → SizedRingQueue A → Put A × SizedRingQueue A
  puts_alone zero p q = (p, q)
  puts_alone (suc n) p q = let (p', q') = put_step p q in puts_alone n p' q'

  unfoldable pub gets_alone : ℕ → Get A → SizedRingQueue A → Get A × SizedRingQueue A
  gets_alone zero c q = (c, q)
  gets_alone (suc n) c q = let (c', q') = get_step true c q in gets_alone n c' q'

  put_next :
      (n : ℕ) (p p' : Put A) (q q' : SizedRingQueue A)
      → put_step p q ≡ (p', q')
      → (puts_alone n p' q').0 ≡ Put.idle
      → (puts_alone (suc n) p q).0 ≡ Put.idle
  unfolding puts_alone
  put_next n p p' q q' e h = ap (λ (r : Put A × SizedRingQueue A). (puts_alone n r.0 r.1).0) e ∙ h

  pub get_next :
      (n : ℕ) (c c' : Get A) (q q' : SizedRingQueue A) (t : Option A)
      → get_step true c q ≡ (c', q')
      → (gets_alone n c' q').0 ≡ Get.returned t
      → (gets_alone (suc n) c q).0 ≡ Get.returned t
  unfolding gets_alone
  get_next n c c' q q' t e h = ap (λ (r : Get A × SizedRingQueue A). (gets_alone n r.0 r.1).0) e ∙ h

  idle_stays : (n : ℕ) (q : SizedRingQueue A) → (puts_alone n Put.idle q).0 ≡ Put.idle
  unfolding puts_alone put_step
  idle_stays zero q = refl
  idle_stays (suc n) q = idle_stays n q

  copying_ends :
      (n pos : ℕ) (t : A) (q : SizedRingQueue A)
      → (puts_alone (suc (suc (suc n))) (Put.copying pos t) q).0 ≡ Put.idle
  unfolding puts_alone put_step
  copying_ends n pos t q = idle_stays n _

  claimed :
      (pos : ℕ) (t : A) (q : SizedRingQueue A)
      → ((q.block pos).state == 0) ≡ false
      → put_step (Put.claiming pos t) q ≡ (Put.copying pos t, set_state q pos (q.block pos).state)
  unfolding put_step compare_and_swap
  claimed pos t q e = rw e refl

  unclaimed :
      (pos : ℕ) (t : A) (q : SizedRingQueue A)
      → ((q.block pos).state == 0) ≡ true
      → put_step (Put.claiming pos t) q ≡ (Put.claiming pos t, set_state q pos 1)
  unfolding put_step compare_and_swap
  unclaimed pos t q e = rw e refl

  -- The second round of the loop sees the state that the first one set.
  claiming_ends :
      (n pos : ℕ) (t : A) (q : SizedRingQueue A)
      → (puts_alone (suc (suc (suc (suc (suc n))))) (Put.claiming pos t) q).0 ≡ Put.idle
  claiming_ends n pos t q = elim (Bool-cases ((q.block pos).state == 0)) [
    | inl e ↦ put_next (suc (suc (suc (suc n)))) _ _ q _ (unclaimed pos t q e) (
        put_next (suc (suc (suc n))) _ _ _ _
          (claimed pos t (set_state q pos 1) (
            ap (λ (i : SizedRingQueueItem A). i.state == 0)
              (update_self q.block pos (record (q.block pos) { state = 1 }))))
          (copying_ends n pos t _))
    | inr e ↦
        put_next (suc (suc (suc (suc n)))) _ _ q _ (claimed pos t q e)
          (copying_ends (suc n) pos t _)
  ]

  entered :
      (t : A) (q : SizedRingQueue A)
      → put_step (Put.entering t) q
        ≡ (Put.claiming (q.tx % q.size) t, record q { tx = (q.tx + 1) % usize_mod })
  unfolding put_step
  entered t q = refl

  storing_ends :
      (n pos : ℕ) (t : A) (q : SizedRingQueue A)
      → (puts_alone (suc (suc n)) (Put.storing pos t) q).0 ≡ Put.idle
  unfolding puts_alone put_step
  storing_ends n pos t q = idle_stays n _

  counting_ends : (n : ℕ) (q : SizedRingQueue A) → (puts_alone (suc n) Put.counting q).0 ≡ Put.idle
  unfolding puts_alone put_step
  counting_ends n q = idle_stays n _

  -- The loop of `put` ends whatever the queue holds: a sender that is left alone is back after six
  -- accesses.
  pub puts_alone-ends : (p : Put A) (q : SizedRingQueue A) → (puts_alone 6 p q).0 ≡ Put.idle
  puts_alone-ends Put.idle q = idle_stays 6 q
  puts_alone-ends (Put.entering t) q =
      put_next 5 _ _ q _ (entered t q) (claiming_ends 0 (q.tx % q.size) t _)
  puts_alone-ends (Put.claiming pos t) q = claiming_ends 1 pos t q
  puts_alone-ends (Put.copying pos t) q = copying_ends 3 pos t q
  puts_alone-ends (Put.storing pos t) q = storing_ends 4 pos t q
  puts_alone-ends Put.counting q = counting_ends 5 q

  pub returned_stays :
      (n : ℕ) (t : Option A) (q : SizedRingQueue A)
      → (gets_alone n (Get.returned t) q).0 ≡ Get.returned t
  unfolding gets_alone get_step
  returned_stays zero t q = refl
  returned_stays (suc n) t q = returned_stays n t q

  pub clearing_ends :
      (n pos : ℕ) (t : Option A) (q : SizedRingQueue A)
      → (gets_alone (suc (suc n)) (Get.clearing pos t) q).0 ≡ Get.returned t
  unfolding gets_alone get_step
  clearing_ends n pos t q = returned_stays n t _

  pub reading_ends :
      (n pos : ℕ) (t : Option A) (q : SizedRingQueue A)
      → (q.block pos).value ≡ t
      → (gets_alone (suc (suc (suc n))) (Get.reading pos) q).0 ≡ Get.returned t
  unfolding gets_alone get_step
  reading_ends n pos t q e = returned_stays n _ _ ∙ ap Get.returned e

  taken :
      (pos : ℕ) (q : SizedRingQueue A)
      → (q.block pos).state ≡ 2
      → get_step true (Get.taking pos) q ≡ (Get.reading pos, set_state q pos 3)
  unfolding get_step compare_and_swap
  taken pos q e = rw e refl

  pub taking_ends :
      (n pos : ℕ) (x : A) (q : SizedRingQueue A)
      → q.block pos ≡ record { state = 2; value = some x }
      → (gets_alone (suc (suc (suc (suc n)))) (Get.taking pos) q).0 ≡ Get.returned (some x)
  taking_ends n pos x q e =
      get_next (suc (suc (suc n))) _ _ q _ (some x)
        (taken pos q (ap (λ (i : SizedRingQueueItem A). i.state) e))
        (reading_ends n pos (some x) (set_state q pos 3) (
          ap (λ (i : SizedRingQueueItem A). i.value)
            (update_self q.block pos (record (q.block pos) { state = 3 }))
          ∙ ap (λ (i : SizedRingQueueItem A). i.value) e))

  pub entered_get :
      (q : SizedRingQueue A)
      → get_step true Get.entering q
        ≡ (Get.taking (q.rx % q.size), record q { rx = (q.rx + 1) % usize_mod })
  unfolding get_step
  entered_get q = refl

  pub undone :
      (q : SizedRingQueue A)
      → get_step true Get.undoing q
        ≡ (Get.entering, record q { rx = (q.rx + usize_mod - 1) % usize_mod })
  unfolding get_step
  undone q = refl

  pub uncounting_ends :
      (n : ℕ) (t : Option A) (q : SizedRingQueue A)
      → (gets_alone (suc n) (Get.uncounting t) q).0 ≡ Get.returned t
  unfolding gets_alone get_step
  uncounting_ends n t q = returned_stays n t _
