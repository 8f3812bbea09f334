-- ===== src/Queue/Tests.antt =====
-- Runs of the theorems on the queues with pointers of src/queue.rs.
use water_rs.Prelude.{ℕ, suc, ◌≡◌, refl, false, List, [], ◌∷◌, none, some, length}
use water_rs.Queue.LinkQueue.{Item, LinkQueue, new}
use water_rs.Queue.LinkQueue.Fifo.{Op, puts, gets, fifo, calls, calls-fifo}

-- Items are released and used again, and the queue is empty in between.
abbrev ops : List (Op ℕ)
ops =
    gets
    ∷ puts 4
    ∷ puts 5
    ∷ gets
    ∷ gets
    ∷ gets
    ∷ puts 6
    ∷ puts 7
    ∷ gets
    ∷ puts 8
    ∷ gets
    ∷ gets
    ∷ gets
    ∷ []

abbrev heap : ℕ → Item ℕ
heap a = record { next = 9; prev = 9; claimed = false; needrel = false; payload = a }

calls-fifo_example :
    (q : LinkQueue ℕ) × (calls (suc (length ops)) ops (new heap (λ k. 3)) ≡ some (q, fifo ops []))
calls-fifo_example = calls-fifo ops heap (λ k. 3)

answers : fifo ops [] ≡ none ∷ some 4 ∷ some 5 ∷ none ∷ some 6 ∷ some 7 ∷ some 8 ∷ none ∷ []
unfolding fifo
answers = refl
