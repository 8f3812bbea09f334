-- ===== src/Queue/RingQueue/Order.antt =====
-- `SizedRingQueue` (src/queue.rs) is a first-in first-out queue, as long as it is neither read when
-- empty nor written when full.
use water_rs.Prelude.{
  ℕ, suc, ◌+◌, ◌-◌, ◌%◌, ◌≤◌, ◌<◌, ◌≡◌, refl, inl, inr, List, [], ◌∷◌, ◌++◌, some, arith, length,
  get_elem?, ◌==◌, Bool-cases, length-append, ap, ◌∙◌, sym,
}
use native.Mathlib.Nat.{add-mod_right}
use native.Mathlib.Decide.{dec_lt}
use water_rs.RawMessage.{usize_mod}
use water_rs.Store.{update}
use water_rs.Store.Alias.{update_self, update_ne}
use water_rs.Queue.RingQueue.{SizedRingQueue, SizedRingQueueItem, claim, put, get}
use water_rs.Queue.RingQueue.Slots.{step-mod-ne, slots-ne, get_elem?-lt, get_elem?-snoc}

-- The queue holds `xs`, oldest first: their slots are full, in order from `rx`, and the others free.
pub record Holds {ℓ} {A : Type ℓ} (q : SizedRingQueue A) (xs : List A) : Type ℓ where
  pub sized : 0 < q.size
  pub fits : length xs ≤ q.size
  pub small : q.size < usize_mod
  pub tx : q.tx ≡ q.rx + length xs
  pub len : q.len ≡ length xs
  pub full :
      (k : ℕ) (x : A)
      → get_elem? xs k ≡ some x
      → q.block ((q.rx + k) % q.size) ≡ record { state = 2; value = some x }
  pub free : (k : ℕ) → length xs ≤ k → k < q.size → (q.block ((q.rx + k) % q.size)).state ≡ 0

claim-ends : (state : ℕ) → (state' : ℕ) × (claim 2 state ≡ some state')
unfolding claim
claim-ends state = elim (Bool-cases (state == 0)) [
  | inl free ↦ (1, rw free)
  | inr busy ↦ (state, rw busy)
]

module _ {ℓ} {A : Type ℓ} where
  unfoldable pub after_put : SizedRingQueue A → A → SizedRingQueue A
  after_put q t = record q {
    block = update q.block (q.tx % q.size) (record { state = 2; value = some t });
    tx = (q.tx + 1) % usize_mod;
    len = (q.len + 1) % usize_mod;
  }

  -- The loop of `put` ends whatever the state of the slot is.
  pub put-after : (q : SizedRingQueue A) (t : A) → put q t ≡ some (after_put q t)
  unfolding put after_put
  put-after q t = rw ((claim-ends (q.block (q.tx % q.size)).state).1, put)

  put-full :
      (q : SizedRingQueue A) (xs : List A) (t : A)
      → Holds q xs
      → length xs < q.size
      → (k : ℕ) (x : A) → get_elem? (xs ++ (t ∷ [])) k ≡ some x
      → (after_put q t).block ((q.rx + k) % q.size) ≡ record { state = 2; value = some x }
  unfolding after_put
  put-full q xs t h room k x e = elim (get_elem?-snoc xs t k x e) [
    | inl old ↦
        let before = get_elem?-lt xs k x old in
        update_ne q.block (q.tx % q.size) _ (record { state = 2; value = some t })
          (rw h.tx (
            slots-ne q.size q.rx (length xs) k room (omega (arith, before))
              (λ e. omega (arith, before))))
        ∙ h.full k x old
    | inr (last, same) ↦
        rw (last, same, ← h.tx)
          (update_self q.block (q.tx % q.size) (record { state = 2; value = some x }))
  ]

  put-free :
      (q : SizedRingQueue A) (xs : List A) (t : A)
      → Holds q xs
      → (k : ℕ) → suc (length xs) ≤ k
      → k < q.size
      → ((after_put q t).block ((q.rx + k) % q.size)).state ≡ 0
  unfolding after_put
  put-free q xs t h k a b =
      ap (λ (i : SizedRingQueueItem A). i.state)
        (update_ne q.block (q.tx % q.size) _ (record { state = 2; value = some t })
          (rw h.tx (slots-ne q.size q.rx (length xs) k (omega arith) b (λ e. omega arith))))
      ∙ h.free k (omega arith) b

  pub put-Holds :
      (q : SizedRingQueue A) (xs : List A) (t : A)
      → Holds q xs
      → length xs < q.size
      → q.tx + 1 < usize_mod
      → Holds (after_put q t) (xs ++ (t ∷ []))
  unfolding after_put
  put-Holds q xs t h room small = record {
    sized = h.sized;
    fits = omega (arith, length-append xs (t ∷ []));
    small = h.small;
    tx = omega (arith, length-append xs (t ∷ []), h.tx);
    len = omega (arith, length-append xs (t ∷ []), h.len, h.small);
    full = put-full q xs t h room;
    free = λ k a b. put-free q xs t h k (omega (arith, length-append xs (t ∷ []))) b;
  }

  -- What `get` leaves when the slot at `rx` is full.
  unfoldable pub after_get : SizedRingQueue A → SizedRingQueue A
  after_get q = record q {
    rx = (q.rx + 1) % usize_mod;
    block =
        update q.block (q.rx % q.size)
          (record { state = 0; value = (q.block (q.rx % q.size)).value });
    len = (q.len + usize_mod - 1) % usize_mod;
  }

  pub front :
      (q : SizedRingQueue A) (x : A) (xs : List A)
      → Holds q (x ∷ xs)
      → q.block (q.rx % q.size) ≡ record { state = 2; value = some x }
  front q x xs h =
      ap (λ n. q.block (n % q.size)) (let e : q.rx ≡ q.rx + 0 = omega arith in e) ∙ h.full 0 x refl

  get-after :
      (q : SizedRingQueue A) (x : A) (xs : List A)
      → Holds q (x ∷ xs)
      → get q ≡ (some x, after_get q)
  unfolding get after_get
  get-after q x xs h = rw (front q x xs h)

  -- The slots behind the one that was read.
  get-block_ne :
      (q : SizedRingQueue A) (k : ℕ)
      → suc k < q.size
      → (after_get q).block ((q.rx + suc k) % q.size) ≡ q.block ((q.rx + suc k) % q.size)
  unfolding after_get
  get-block_ne q k h =
      update_ne q.block (q.rx % q.size) ((q.rx + suc k) % q.size)
        (record { state = 0; value = (q.block (q.rx % q.size)).value })
        (λ e. step-mod-ne q.size q.rx (suc k) (omega arith) h (sym e))

  get-free :
      (q : SizedRingQueue A) (x : A) (xs : List A)
      → Holds q (x ∷ xs)
      → (k : ℕ) → length xs ≤ k
      → k < q.size
      → ((after_get q).block ((q.rx + suc k) % q.size)).state ≡ 0
  get-free q x xs h k a b = elim (dec_lt (suc k) q.size) [
    | yes lt ↦
        ap (λ (i : SizedRingQueueItem A). i.state) (get-block_ne q k lt)
        ∙ h.free (suc k) (omega arith) lt
    | no ge ↦
        let round : (q.rx + suc k) % q.size ≡ q.rx % q.size =
          ap (λ n. (q.rx + n) % q.size) (let e : suc k ≡ q.size = omega arith in e)
          ∙ add-mod_right q.rx q.size in
        rw round (
          unfold after_get in
          (ap (λ (i : SizedRingQueueItem A). i.state) (update_self q.block (q.rx % q.size) _)))
  ]

  pub get-Holds :
      (q : SizedRingQueue A) (x : A) (xs : List A)
      → Holds q (x ∷ xs)
      → q.tx < usize_mod
      → Holds (after_get q) xs
  unfolding after_get
  get-Holds q x xs h small = record {
    sized = h.sized;
    fits = omega (arith, h.fits);
    small = h.small;
    tx = omega (arith, h.tx);
    len = omega (arith, h.len, h.fits, h.small);
    full = λ k y e.
        let inside = get_elem?-lt xs k y e in
        rw (shift k) (get-block_ne q k (omega (arith, h.fits)) ∙ h.full (suc k) y e);
    free = λ k a b. rw (shift k) (get-free q x xs h k a b);
  }
    where
      shift : (k : ℕ) → (q.rx + 1) % usize_mod + k ≡ q.rx + suc k
      shift k = omega (arith, h.tx)

  -- A ring queue that is neither written when full nor read when empty is first-in first-out,
  -- as long as its positions do not overflow: `put` ends and adds its value behind the others,
  -- `get` takes the oldest.
  pub put-get-Holds :
      (q : SizedRingQueue A) (xs : List A)
      → Holds q xs
      → q.tx + 1 < usize_mod
      → ((t : A)
          → length xs < q.size
          → (q' : SizedRingQueue A) × (put q t ≡ some q') × Holds q' (xs ++ (t ∷ [])))
        × ((x : A) (rest : List A)
            → xs ≡ x ∷ rest
            → (q' : SizedRingQueue A) × (get q ≡ (some x, q')) × Holds q' rest)
  put-get-Holds q xs h small = (
    λ t room. (after_put q t, put-after q t, put-Holds q xs t h room small),
    λ x rest e.
        let held = rw e at h in
        (after_get q, get-after q x rest held, get-Holds q x rest held (omega arith)),
  )
