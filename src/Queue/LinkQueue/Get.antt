-- ===== src/Queue/LinkQueue/Get.antt =====
-- `get` of `InfiniteLinkQueue` (src/queue.rs) takes the oldest value.
use water_rs.Prelude.{
  ℕ, suc, ◌+◌, ◌-◌, ◌%◌, ◌≡◌, refl, sym, ap, ◌∙◌, ◌≢◌, inl, inr, true, false, List, [], ◌∷◌, Option,
  none, some, arith, ◌==◌,
}
use water_rs.RawMessage.{usize_mod}
use water_rs.Store.{update}
use water_rs.Store.Alias.{update_self, update_ne}
use water_rs.Queue.LinkQueue.{Item, LinkQueue, move_last, mark, take, claim, claim_loop}
use water_rs.Queue.LinkQueue.Cells.{Role, Cells, apart_rank}
use water_rs.Queue.LinkQueue.Chain.{first, last, Node, AllWait, Tail, AllWait-kept, Tail-kept}
use water_rs.Queue.LinkQueue.Shape.{Holds}

-- The memory behind a claim of item `a`.
abbrev claimed_heap : {T : Type 0} → (ℕ → Item T) → ℕ → ℕ → Item T
claimed_heap heap a =
    let made = update heap a (record (heap a) { claimed = true }) in
    update made a (record (made a) { needrel = true })

module _ {T : Type 0} (heap : ℕ → Item T) (a : ℕ) where
  marked : ℕ → Item T
  marked = update heap a (record (heap a) { claimed = true })

  claimed_at : claimed_heap heap a a ≡ record (heap a) { claimed = true; needrel = true }
  unfolding marked
  claimed_at =
      update_self marked a (record (marked a) { needrel = true })
      ∙ ap {A = Item T} (λ i. record i { needrel = true })
          (update_self heap a (record (heap a) { claimed = true }))

  claimed_other : (b : ℕ) → a ≢ b → claimed_heap heap a b ≡ heap b
  unfolding marked
  claimed_other b ne =
      update_ne marked a b (record (marked a) { needrel = true }) ne
      ∙ update_ne heap a b (record (heap a) { claimed = true }) ne

module _ {T : Type 0} (q : LinkQueue T) (role : ℕ → Role) (top low start a : ℕ)
    (front tail : List ℕ) (t : T) (ts : List T)
    (n : Node q.heap role low top start a (first front) t)
    (w : AllWait q.heap role (suc n.rank) top a front ts)
    (held : Tail q.heap role low start tail) where
  -- The queue behind the claim, where the last pointer becomes `lst`.
  claimed : ℕ → LinkQueue T
  claimed lst = record q {
    lst = lst;
    rinside = (q.rinside + usize_mod - 1) % usize_mod;
    len = (q.len + usize_mod - 1) % usize_mod;
    needrel = (q.needrel + 1) % usize_mod;
    heap = claimed_heap q.heap a;
  }

  rest : AllWait (claimed_heap q.heap a) role (suc n.rank) top a front ts
  rest =
      AllWait-kept q.heap (claimed_heap q.heap a) role role (suc n.rank) top top a front ts
        (omega arith)
        (λ b r e above.
          (claimed_other q.heap a b (apart_rank role a b n.rank r n.is_role e above), e))
        w

  behind : Tail (claimed_heap q.heap a) role n.rank (claimed_heap q.heap a a).next tail
  behind =
      let at_next : (claimed_heap q.heap a a).next ≡ start =
        ap (λ i. i.next) (claimed_at q.heap a) ∙ n.next in
      rw at_next (
        Tail-kept q.heap (claimed_heap q.heap a) role role low n.rank start tail n.above
          (λ b r e below. (
            claimed_other q.heap a b (λ same.
                apart_rank role b a r n.rank e n.is_role (omega (arith, below, n.above))
                  (sym same)),
            e,
          ))
          held)

  marked_item : (mark q a).heap a ≡ record (q.heap a) { claimed = true }
  unfolding mark
  marked_item = update_self q.heap a (record (q.heap a) { claimed = true })

  payload : ((mark q a).heap a).payload ≡ t
  payload = ap (λ i. i.payload) marked_item ∙ n.payload

  finish : (lst : ℕ) → take (record (mark q a) { lst = lst }) a ≡ (claimed lst, t)
  unfolding take mark claimed
  finish lst = ap {A = T} (λ p. (claimed lst, p)) payload

  claims :
      (lst : ℕ)
      → move_last (mark q a) a ((mark q a).heap a).prev ≡ record (mark q a) { lst = lst }
      → claim true q a ≡ (claimed lst, t)
  unfolding claim
  claims lst moved = ap (λ m. take m a) moved ∙ finish lst

  -- What the loop does with the oldest item.
  takes :
      (fuel lst : ℕ)
      → move_last (mark q a) a ((mark q a).heap a).prev ≡ record (mark q a) { lst = lst }
      → claim_loop (suc fuel) true q a ≡ some (claimed lst, some t)
  unfolding claim_loop
  takes fuel lst moved =
      let some_item : (a == 0) ≡ false = ground (arith, n.nonnull) in
      rw (some_item, n.claimed, claims lst moved)

  marked_prev : ((mark q a).heap a).prev ≡ first front
  marked_prev = ap (λ i. i.prev) marked_item ∙ n.prev

-- The answer is the first of the values, if there is one, and the others stay.
abbrev pub Takes : {T : Type 0} → ℕ → LinkQueue T × Option T → List T → Type 0
Takes top (q, none) ts = (ts ≡ []) × Holds q top []
Takes top (q, some t) ts = (rest : List _) × (ts ≡ t ∷ rest) × Holds q top rest

module _ {T : Type 0} where
  pub move_null : (q : LinkQueue T) (a p : ℕ) → p ≡ 0 → move_last q a p ≡ record q { lst = q.lst }
  unfolding move_last
  move_null q a p e = rw e

  pub move_some :
      (q : LinkQueue T) (a p : ℕ) → q.lst ≡ a → p ≢ 0 → move_last q a p ≡ record q { lst = p }
  unfolding move_last
  move_some q a p e ne =
      let null : (p == 0) ≡ false = ground (arith, ne) in
      let here : (q.lst == a) ≡ true = ground (arith, e) in rw (null, here)

  -- The oldest item that waits is claimed.
  pub take_oldest :
      (fuel : ℕ) (q : LinkQueue T) (role : ℕ → Role) (top low start a : ℕ) (front tail : List ℕ)
      (ts : List T)
      → Cells q.recycle q.fresh role
      → q.doingrel ≡ false
      → q.lst ≡ a
      → q.ptr ≡ last a front
      → AllWait q.heap role low top start (a ∷ front) ts
      → Tail q.heap role low start tail
      → (r : LinkQueue T × Option T) × (claim_loop (suc fuel) true q a ≡ some r) × Takes top r ts
  unfolding claimed mark
  take_oldest fuel q role top low start a front tail [] c idle at_last at_head w held = absurd w
  take_oldest fuel q role top low start a [] tail (t ∷ t' ∷ ts) c idle at_last at_head (n, w) held =
      absurd w
  take_oldest fuel q role top low start a [] tail (t ∷ []) c idle at_last at_head (n, w) held =
      let same = claimed_at q.heap a in
      (
        (claimed q role top low start a [] tail t [] n w held q.lst, some t),
        takes q role top low start a [] tail t [] n w held fuel q.lst
            (move_null (mark q a) a _ (marked_prev q role top low start a [] tail t [] n w held)),
        (
          [],
          refl,
          record {
            role = role;
            cells = c;
            idle = idle;
            shape = inr (
                inr (record {
                  taken = a;
                  rank = n.rank;
                  front = [];
                  tail = tail;
                  nonnull = n.nonnull;
                  is_role = n.is_role;
                  under = n.under;
                  at_last = at_last;
                  at_head = at_head;
                  needrel = rw same refl;
                  prev = ap (λ i. i.prev) same ∙ n.prev;
                  wait = tt;
                  held = behind q role top low start a [] tail t [] n w held;
                }));
          },
        ),
      )
  take_oldest fuel q role top low start a (b ∷ front) tail (t ∷ []) c idle at_last at_head (n, w)
        held =
      absurd w
  take_oldest fuel q role top low start a (b ∷ front) tail (t ∷ t' ∷ ts) c idle at_last at_head
        (n, (m, w)) held =
      let prev = marked_prev q role top low start a (b ∷ front) tail t (t' ∷ ts) n (m, w) held in
      (
        (claimed q role top low start a (b ∷ front) tail t (t' ∷ ts) n (m, w) held b, some t),
        takes q role top low start a (b ∷ front) tail t (t' ∷ ts) n (m, w) held fuel b
            (move_some (mark q a) a _ at_last (λ e. m.nonnull (sym prev ∙ e))
              ∙ ap {A = ℕ} (λ p. record (mark q a) { lst = p }) prev),
        (
          t' ∷ ts,
          refl,
          record {
            role = role;
            cells = c;
            idle = idle;
            shape = inr (
                inl (record {
                  low = suc n.rank;
                  start = a;
                  oldest = b;
                  front = front;
                  tail = a ∷ tail;
                  at_last = refl;
                  at_head = at_head;
                  wait = rest q role top low start a (b ∷ front) tail t (t' ∷ ts) n (m, w) held;
                  held = (
                    refl,
                    n.nonnull,
                    n.rank,
                    n.is_role,
                    omega arith,
                    behind q role top low start a (b ∷ front) tail t (t' ∷ ts) n (m, w) held,
                  );
                }));
          },
        ),
      )
