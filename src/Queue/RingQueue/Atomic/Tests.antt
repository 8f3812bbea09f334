-- ===== src/Queue/RingQueue/Atomic/Tests.antt =====
-- Runs of the theorems on interleaved calls on a `SizedRingQueue` of src/queue.rs, of two slots.
use water_rs.Prelude.{ℕ, ◌≤◌, ◌≡◌, refl, List, [], ◌∷◌, ◌++◌, some, length, arith, true}
use water_rs.Queue.RingQueue.{compare_and_swap, new}
use water_rs.Queue.RingQueue.Order.{Holds}
use water_rs.Queue.RingQueue.Atomic.{Put, Get, Ends, Step, Reach, start, put_step, get_step}
use water_rs.Queue.RingQueue.Atomic.Fifo.{Reach-fifo, Reach-at_rest}
use water_rs.Queue.RingQueue.Atomic.Alone.{gets_alone}
use water_rs.Queue.RingQueue.Atomic.Receives.{Reach-receives}

abbrev puts : Ends ℕ → Ends ℕ
puts s = record s { producer = (put_step s.producer s.q).0; q = (put_step s.producer s.q).1 }

abbrev gets : Ends ℕ → Ends ℕ
gets s = record s {
  consumer = (get_step true s.consumer s.q).0;
  q = (get_step true s.consumer s.q).1;
}

-- The receiver looks for a value, then the sender puts one, then the receiver goes back.
abbrev called : Ends ℕ
called = record (start 1) { producer = Put.entering 5; consumer = Get.entering; sent = 5 ∷ [] }

abbrev sent : Ends ℕ
sent = puts (puts (puts (puts (puts (puts (gets (gets called)))))))

sent-Reach : Reach (start 1) sent
unfolding new
sent-Reach =
    Reach.later
      (Reach.later
        (Reach.later
          (Reach.later
            (Reach.later
              (Reach.later
                (Reach.later
                  (Reach.later
                    (Reach.later (Reach.later Reach.here (Step.calls_get refl))
                      (Step.calls_put 5 refl (omega arith)))
                    Step.gets)
                  Step.gets)
                Step.puts)
              Step.puts)
            Step.puts)
          Step.puts)
        Step.puts)
      Step.puts

Reach-fifo_example : (rest : List ℕ) × (sent.sent ≡ sent.got ++ rest) × (length rest ≤ 3)
unfolding new put_step get_step compare_and_swap
Reach-fifo_example = Reach-fifo 1 sent (omega arith) sent-Reach (omega arith)

Reach-receives_example :
    (x : ℕ) × (rest : List ℕ) × (5 ∷ [] ≡ x ∷ rest)
    × ((gets_alone 6 sent.consumer sent.q).0 ≡ Get.returned (some x))
unfolding new put_step get_step compare_and_swap
Reach-receives_example =
    Reach-receives 1 sent (omega arith) sent-Reach (omega arith) refl (λ e. cc) (omega arith)

-- One value is put, and nobody asks for it.
abbrev unasked : Ends ℕ
unasked = puts (
    puts
      (puts (puts (puts (puts (record (start 1) { producer = Put.entering 5; sent = 5 ∷ [] }))))))

unasked-Reach : Reach (start 1) unasked
unfolding new
unasked-Reach =
    Reach.later
      (Reach.later
        (Reach.later
          (Reach.later
            (Reach.later
              (Reach.later (Reach.later Reach.here (Step.calls_put 5 refl (omega arith))) Step.puts)
              Step.puts)
            Step.puts)
          Step.puts)
        Step.puts)
      Step.puts

Reach-at_rest_example : (xs : List ℕ) × (5 ∷ [] ≡ xs) × Holds unasked.q xs
unfolding new put_step compare_and_swap
Reach-at_rest_example = Reach-at_rest 1 unasked (omega arith) unasked-Reach (omega arith) refl refl
