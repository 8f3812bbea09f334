-- ===== src/Queue/RingQueue/Atomic/View.antt =====
-- What the two ends of a ring queue (src/queue.rs) have done so far, as a queue between two calls.
use water_rs.Prelude.{ℕ, ◌+◌, ◌%◌, ◌<◌, ◌≡◌, ◌⊎◌, List, [], ◌∷◌, ◌++◌, Option, none, some, length}
use water_rs.RawMessage.{usize_mod}
use water_rs.Queue.RingQueue.{SizedRingQueue, SizedRingQueueItem}
use water_rs.Queue.RingQueue.Order.{Holds}
use water_rs.Queue.RingQueue.Atomic.{Put, Get, Ends}

module _ {A : Type 0} where
  -- The slot that an end works on, where it may differ from the view.
  abbrev pub Writes : Put A → ℕ → Type 0
  Writes Put.idle p = ⊥
  Writes (Put.entering t) p = ⊥
  Writes (Put.claiming pos t) p = pos ≡ p
  Writes (Put.copying pos t) p = pos ≡ p
  Writes (Put.storing pos t) p = pos ≡ p
  Writes Put.counting p = ⊥

  abbrev pub Reads : Get A → ℕ → Type 0
  Reads Get.idle p = ⊥
  Reads Get.entering p = ⊥
  Reads (Get.taking pos) p = ⊥
  Reads Get.undoing p = ⊥
  Reads (Get.reading pos) p = pos ≡ p
  Reads (Get.clearing pos t) p = pos ≡ p
  Reads (Get.uncounting t) p = ⊥
  Reads (Get.returned t) p = ⊥

  -- How far the positions and the count are ahead of the view.
  abbrev pub tx_ahead : Put A → ℕ
  tx_ahead Put.idle = 0
  tx_ahead (Put.entering t) = 0
  tx_ahead (Put.claiming pos t) = 1
  tx_ahead (Put.copying pos t) = 1
  tx_ahead (Put.storing pos t) = 1
  tx_ahead Put.counting = 0

  abbrev pub rx_ahead : Get A → ℕ
  rx_ahead Get.idle = 0
  rx_ahead Get.entering = 0
  rx_ahead (Get.taking pos) = 1
  rx_ahead Get.undoing = 1
  rx_ahead (Get.reading pos) = 1
  rx_ahead (Get.clearing pos t) = 1
  rx_ahead (Get.uncounting t) = 0
  rx_ahead (Get.returned t) = 0

  abbrev pub to_count : Put A → ℕ
  to_count Put.idle = 0
  to_count (Put.entering t) = 0
  to_count (Put.claiming pos t) = 0
  to_count (Put.copying pos t) = 0
  to_count (Put.storing pos t) = 0
  to_count Put.counting = 1

  abbrev pub to_uncount : Get A → ℕ
  to_uncount Get.idle = 0
  to_uncount Get.entering = 0
  to_uncount (Get.taking pos) = 0
  to_uncount Get.undoing = 0
  to_uncount (Get.reading pos) = 0
  to_uncount (Get.clearing pos t) = 0
  to_uncount (Get.uncounting t) = 1
  to_uncount (Get.returned t) = 0

  -- The value that is not in the view yet, or not any more.
  abbrev pub offered : Put A → List A
  offered Put.idle = []
  offered (Put.entering t) = t ∷ []
  offered (Put.claiming pos t) = t ∷ []
  offered (Put.copying pos t) = t ∷ []
  offered (Put.storing pos t) = t ∷ []
  offered Put.counting = []

  abbrev pub value_list : Option A → List A
  value_list none = []
  value_list (some t) = t ∷ []

  abbrev pub in_hand : Get A → List A
  in_hand Get.idle = []
  in_hand Get.entering = []
  in_hand (Get.taking pos) = []
  in_hand Get.undoing = []
  in_hand (Get.reading pos) = []
  in_hand (Get.clearing pos t) = []
  in_hand (Get.uncounting t) = value_list t
  in_hand (Get.returned t) = value_list t

  -- What the sender knows of its slot, the one behind the values `xs`, of which there is one.
  abbrev pub IsPutting : (ℕ → SizedRingQueueItem A) → ℕ → ℕ → List A → Put A → Type 0
  IsPutting block size slot xs Put.idle = Unit {0}
  IsPutting block size slot xs (Put.entering t) = length xs < size
  IsPutting block size slot xs (Put.claiming pos t) =
      (length xs < size) × (pos ≡ slot) × (((block pos).state ≡ 0) ⊎ ((block pos).state ≡ 1))
  IsPutting block size slot xs (Put.copying pos t) =
      (length xs < size) × (pos ≡ slot) × ((block pos).state ≡ 1)
  IsPutting block size slot xs (Put.storing pos t) =
      (length xs < size) × (pos ≡ slot) × (block pos ≡ record { state = 1; value = some t })
  IsPutting block size slot xs Put.counting = Unit {0}

  -- What the receiver knows of its slot, that of the first of `xs`.
  abbrev pub IsGetting : (ℕ → SizedRingQueueItem A) → ℕ → List A → Get A → Type 0
  IsGetting block slot xs Get.idle = Unit {0}
  IsGetting block slot xs Get.entering = Unit {0}
  IsGetting block slot xs (Get.taking pos) = pos ≡ slot
  IsGetting block slot xs Get.undoing = Unit {0}
  IsGetting block slot xs (Get.reading pos) =
      (pos ≡ slot)
      × ((x : A) × (rest : List A) × (xs ≡ x ∷ rest)
          × (block pos ≡ record { state = 3; value = some x }))
  IsGetting block slot xs (Get.clearing pos t) =
      (pos ≡ slot)
      × ((x : A) × (rest : List A) × (xs ≡ x ∷ rest)
          × (block pos ≡ record { state = 3; value = some x })
          × (t ≡ some x))
  IsGetting block slot xs (Get.uncounting t) = (x : A) × (t ≡ some x)
  IsGetting block slot xs (Get.returned t) = (x : A) × (t ≡ some x)

-- The queue as it would be if the calls that have not reached their slot's last store had not begun,
-- and the others were over: it holds the values `xs`, and those that were sent are the ones that were
-- received, then these, with what the two threads have in hand in between.
pub record IsView {A : Type 0} (s : Ends A) (v : SizedRingQueue A) (xs : List A) : Type 0 where
  pub held : Holds v xs
  pub size : s.q.size ≡ v.size
  pub tx : s.q.tx ≡ v.tx + tx_ahead s.producer
  pub rx : s.q.rx ≡ v.rx + rx_ahead s.consumer
  pub numbered : v.tx + length (offered s.producer) ≡ length s.sent
  pub len_small : s.q.len < usize_mod
  pub len :
      (s.q.len + to_count s.producer) % usize_mod ≡ (v.len + to_uncount s.consumer) % usize_mod
  pub agree : (p : ℕ) → ¬ Writes s.producer p → ¬ Reads s.consumer p → s.q.block p ≡ v.block p
  pub putting : IsPutting s.q.block v.size (v.tx % v.size) xs s.producer
  pub getting : IsGetting s.q.block (v.rx % v.size) xs s.consumer
  pub sent : s.sent ≡ s.got ++ (in_hand s.consumer ++ (xs ++ offered s.producer))
