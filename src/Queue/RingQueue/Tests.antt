-- ===== src/Queue/RingQueue/Tests.antt =====
-- Runs of the theorems on `SizedRingQueue` of src/queue.rs, on a ring of two slots.
use water_rs.Prelude.{
  ℕ, zero, suc, ◌+◌, ◌<◌, ◌%◌, ◌≡◌, refl, List, [], ◌∷◌, some, none, arith, ap, get_elem?,
}
use water_rs.Store.{update}
use water_rs.Queue.RingQueue.{SizedRingQueue, SizedRingQueueItem, put, get}
use water_rs.Queue.RingQueue.Order.{Holds, put-get-Holds}
use water_rs.Queue.RingQueue.Limits.{get_empty-loses, put_full-overwrites}

abbrev no_item : SizedRingQueueItem ℕ
no_item = record { state = 0; value = none }

abbrev item : ℕ → SizedRingQueueItem ℕ
item n = record { state = 2; value = some n }

abbrev empty : SizedRingQueue ℕ
empty = record { block = λ pos. no_item; size = 2; len = 0; tx = 0; rx = 0 }

empty-Holds : Holds empty []
empty-Holds = record {
  sized = omega arith;
  fits = omega arith;
  small = omega arith;
  tx = refl;
  len = refl;
  full = λ k x e. cc;
  free = λ k a b. refl;
}

abbrev full : SizedRingQueue ℕ
full = record {
  block = update (update (λ pos. no_item) 0 (item 5)) 1 (item 6);
  size = 2;
  len = 2;
  tx = 2;
  rx = 0;
}

full-slots : (k x : ℕ) → get_elem? (5 ∷ 6 ∷ []) k ≡ some x → full.block ((0 + k) % 2) ≡ item x
full-slots zero x e = ap item cc
full-slots (suc zero) x e = ap item cc
full-slots (suc (suc k)) x e = cc

full-Holds : Holds full (5 ∷ 6 ∷ [])
full-Holds = record {
  sized = omega arith;
  fits = omega arith;
  small = omega arith;
  tx = refl;
  len = refl;
  full = full-slots;
  free = λ k a b. absurd (omega arith);
}

-- One item, in the second slot.
abbrev one : SizedRingQueue ℕ
one = record { block = update (λ pos. no_item) 1 (item 5); size = 2; len = 1; tx = 2; rx = 1 }

one-slots : (k x : ℕ) → get_elem? (5 ∷ []) k ≡ some x → one.block ((1 + k) % 2) ≡ item x
one-slots zero x e = ap item cc
one-slots (suc k) x e = cc

one-Holds : Holds one (5 ∷ [])
one-Holds = record {
  sized = omega arith;
  fits = omega arith;
  small = omega arith;
  tx = refl;
  len = refl;
  full = one-slots;
  free = λ k a b. let last : k ≡ 1 = omega arith in rw last;
}

put-get-Holds_example :
    ((t : ℕ) → 1 < 2 → (q' : SizedRingQueue ℕ) × (put one t ≡ some q') × Holds q' (5 ∷ t ∷ []))
    × ((x : ℕ) (rest : List ℕ)
        → 5 ∷ [] ≡ x ∷ rest
        → (q' : SizedRingQueue ℕ) × (get one ≡ (some x, q')) × Holds q' rest)
put-get-Holds_example = put-get-Holds one (5 ∷ []) one-Holds (omega arith)

get_empty-loses_example :
    ((get empty).0 ≡ none)
    × ((q' : SizedRingQueue ℕ) × (put (get empty).1 4 ≡ some q')
        × ((get q').0 ≡ none)
        × (q'.len ≡ 1))
get_empty-loses_example = get_empty-loses empty 4 empty-Holds (omega arith) (omega arith)

put_full-overwrites_example :
    (q' : SizedRingQueue ℕ) × (put full 7 ≡ some q') × ((get q').0 ≡ some 7) × (q'.len ≡ 3)
put_full-overwrites_example = put_full-overwrites full 5 7 (6 ∷ []) full-Holds refl (omega arith)
