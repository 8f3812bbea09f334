-- ===== src/Queue/LinkQueue/Cells.antt =====
-- The items of `InfiniteLinkQueue` (src/queue.rs) by what they are used for: no item is in the queue
-- and in the cache, or twice in the cache.
use water_rs.Prelude.{
  ℕ, suc, ◌+◌, ◌-◌, ◌%◌, ◌<◌, ◌≡◌, refl, sym, ap, ◌∙◌, ◌≢◌, ◌⊎◌, inl, inr, true, false, arith, ◌==◌,
}
use native.Mathlib.Nat.{mod-lt}
use water_rs.RawMessage.{usize_mod}
use water_rs.Store.{update}
use water_rs.Store.Alias.{update_self, update_ne, update_at}
use water_rs.Queue.PointerCache
use water_rs.Queue.PointerCache.{PointerCache}
use water_rs.Queue.LinkQueue.{LinkQueue, new_item, item_for}

-- Not used before, in a slot of the cache, or in the list, where ranks grow from the oldest item on.
pub data Role : Type 0 where
  unused : Role
  cached : ℕ → Role
  linked : ℕ → Role

pub record Cells (cache : PointerCache) (fresh : ℕ) (role : ℕ → Role) : Type 0 where
  pub room : 0 < cache.size
  pub slots : (k : ℕ) → k < cache.size → cache.block k ≢ 0 → role (cache.block k) ≡ cached k
  pub unknown : (a : ℕ) → fresh < a → role a ≡ unused

-- Cells of different roles are different cells.
pub apart_linked : (role : ℕ → Role) (a b r : ℕ) → role a ≡ linked r → role b ≡ unused → a ≢ b
apart_linked role a b r e u same = let clash : linked r ≡ unused = cc in ground (arith, clash)

pub apart_cached : (role : ℕ → Role) (a b r k : ℕ) → role a ≡ linked r → role b ≡ cached k → a ≢ b
apart_cached role a b r k e u same = let clash : linked r ≡ cached k = cc in ground (arith, clash)

apart_slots :
    (role : ℕ → Role) (a b k l : ℕ) → role a ≡ cached k → role b ≡ cached l → k ≢ l → a ≢ b
apart_slots role a b k l e u ne same =
    let clash : cached k ≡ cached l = cc in ground (arith, clash, ne)

apart_unused : (role : ℕ → Role) (a b k : ℕ) → role a ≡ cached k → role b ≡ unused → a ≢ b
apart_unused role a b k e u same = let clash : cached k ≡ unused = cc in ground (arith, clash)

pub apart_rank :
    (role : ℕ → Role) (a b r p : ℕ) → role a ≡ linked r → role b ≡ linked p → r < p → a ≢ b
apart_rank role a b r p e u h same =
    let clash : linked r ≡ linked p = cc in ground (arith, clash, h)

pub eq_cases : (a b : ℕ) → (a ≡ b) ⊎ (a ≢ b)
eq_cases a b = ground arith

module _ (block : ℕ → ℕ) (size : ℕ) (role : ℕ → Role)
    (slots : (k : ℕ) → k < size → block k ≢ 0 → role (block k) ≡ cached k) where
  slots_pushed :
      (at a r k : ℕ)
      → role a ≡ linked r
      → k < size
      → update block at a k ≢ 0
      → update role a (cached at) (update block at a k) ≡ cached k
  slots_pushed at a r k e h ne = elim (eq_cases at k) [
    | inl here ↦ rw (update_at block at k a here) (update_self role a (cached at) ∙ ap cached here)
    | inr there ↦
        let kept : update block at a k ≡ block k = update_ne block at k a there in
        let held = slots k h (rw kept at ne) in
        rw kept
          (update_ne role a (block k) (cached at) (apart_cached role a (block k) r k e held) ∙ held)
  ]

  slots_popped :
      (at a k : ℕ) (new : Role)
      → ((l : ℕ) → at ≢ l → role (block l) ≡ cached l → a ≢ block l)
      → k < size
      → update block at 0 k ≢ 0
      → update role a new (update block at 0 k) ≡ cached k
  slots_popped at a k new apart h ne = elim (eq_cases at k) [
    | inl here ↦ absurd (ne (update_at block at k 0 here))
    | inr there ↦
        let kept : update block at 0 k ≡ block k = update_ne block at k 0 there in
        let held = slots k h (rw kept at ne) in
        rw kept (update_ne role a (block k) new (apart k there held) ∙ held)
  ]

module _ (cache : PointerCache) (fresh : ℕ) (role : ℕ → Role) (c : Cells cache fresh role) where
  -- An item of the list goes to the cache.
  pub push-Cells :
      (a r : ℕ)
      → role a ≡ linked r
      → Cells (PointerCache.push cache a).0 fresh (update role a (cached (cache.pos % cache.size)))
  unfolding PointerCache.push
  push-Cells a r e = record {
    room = c.room;
    slots = λ k h ne.
        slots_pushed cache.block cache.size role c.slots (cache.pos % cache.size) a r k e h ne;
    unknown =
        λ b h. update_ne role a b _ (apart_linked role a b r e (c.unknown b h)) ∙ c.unknown b h;
  }

-- The item that `put` uses is in no list, and not in the cache any more.
pub record IsObtained {ℓ} {T : Type ℓ} (q : LinkQueue T) (t : T) (role : ℕ → Role) (rank : ℕ)
    : Type ℓ where
  pub cache : PointerCache
  pub fresh : ℕ
  pub item : ℕ
  pub run :
      item_for q t
      ≡ (record q { recycle = cache; fresh = fresh; heap = update q.heap item (new_item t) }, item)
  pub nonnull : item ≢ 0
  pub free : (r : ℕ) → role item ≢ linked r
  pub cells : Cells cache fresh (update role item (linked rank))

module _ {ℓ} {T : Type ℓ} (q : LinkQueue T) (t : T) (role : ℕ → Role) (rank : ℕ)
    (c : Cells q.recycle q.fresh role) where
  back : ℕ
  back = (q.recycle.pos + usize_mod - 1) % usize_mod

  slot : ℕ
  unfolding back
  slot = back % q.recycle.size

  rest : PointerCache
  unfolding back slot
  rest = record q.recycle { block = update q.recycle.block slot 0; pos = back }

  slot_in : slot < q.recycle.size
  unfolding slot
  slot_in = mod-lt back c.room

  popped : q.recycle.block slot ≢ 0 → IsObtained q t role rank
  unfolding item_for PointerCache.pop rest slot back
  popped ne =
      let held = c.slots slot slot_in ne in
      let found : (q.recycle.block slot == 0) ≡ false = ground (arith, ne) in
      record {
        cache = rest;
        fresh = q.fresh;
        item = q.recycle.block slot;
        run = rw (item_for, found);
        nonnull = ne;
        free = λ r e. apart_cached role _ _ r slot e held refl;
        cells = record {
          room = c.room;
          slots = λ k h some.
              slots_popped q.recycle.block q.recycle.size role c.slots slot _ k (linked rank)
                (λ l other u. apart_slots role _ _ slot l held u other) h some;
          unknown = λ b h.
              update_ne role _ b _ (apart_unused role _ b slot held (c.unknown b h))
              ∙ c.unknown b h;
        };
      }

  allocated : q.recycle.block slot ≡ 0 → IsObtained q t role rank
  unfolding item_for PointerCache.pop rest slot back
  allocated e =
      let held = c.unknown (suc q.fresh) (omega arith) in
      let found : (q.recycle.block slot == 0) ≡ true = ground (arith, e) in
      record {
        cache = rest;
        fresh = suc q.fresh;
        item = suc q.fresh;
        run = rw (item_for, found);
        nonnull = omega arith;
        free = λ r e. apart_linked role _ _ r e held refl;
        cells = record {
          room = c.room;
          slots = λ k h some.
              slots_popped q.recycle.block q.recycle.size role c.slots slot _ k (linked rank)
                (λ l other u same. apart_unused role _ _ l u held (sym same)) h some;
          unknown = λ b h. update_ne role _ b _ (omega arith) ∙ c.unknown b (omega arith);
        };
      }

  pub item_for-IsObtained : IsObtained q t role rank
  unfolding slot
  item_for-IsObtained = elim (eq_cases (q.recycle.block slot) 0) [
    | inl e ↦ allocated e
    | inr ne ↦ popped ne
  ]
