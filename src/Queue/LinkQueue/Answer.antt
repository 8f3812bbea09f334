-- ===== src/Queue/LinkQueue/Answer.antt =====
-- `get` of `InfiniteLinkQueue` (src/queue.rs), from every state.
use water_rs.Prelude.{
  ℕ, suc, ◌≤◌, ◌<◌, ◌≡◌, refl, sym, ap, ◌∙◌, ◌≢◌, ◌⊎◌, inl, inr, true, false, List, [], ◌∷◌, Option,
  none, some, arith,
}
use water_rs.Store.{update}
use water_rs.Store.Alias.{update_self, update_ne}
use water_rs.Queue.PointerCache.{PointerCache}
use water_rs.Queue.LinkQueue.{Item, LinkQueue, move_last, claim_loop, leave}
use water_rs.Queue.LinkQueue.Cells.{Role, linked, Cells, apart_rank}
use water_rs.Queue.LinkQueue.Chain.{first, last, AllWait, AllWait-kept, length-Tail}
use water_rs.Queue.LinkQueue.Shape.{Live, Spent, Void, Holds}
use water_rs.Queue.LinkQueue.Release.{dealloc_loop-IsReleased}
use water_rs.Queue.LinkQueue.Get.{Takes, take_oldest, move_null, move_some}
use water_rs.Queue.LinkQueue.Passes.{
  Gets, entered, get_null, get_some, from_last, emptied, released, passes, get-Live,
}

module _ {T : Type 0} where
  -- Behind the release, the next item is claimed, or there is none.
  take_next :
      (fuel : ℕ) (q : LinkQueue T) (role role' : ℕ → Role) (top d rank : ℕ) (front : List ℕ)
      (ts : List T) (cache : PointerCache)
      → Cells cache q.fresh role'
      → ((b r : ℕ) → role b ≡ linked r → rank ≤ r → role' b ≡ linked r)
      → q.doingrel ≡ false
      → d ≢ 0
      → role d ≡ linked rank
      → rank < top
      → q.lst ≡ d
      → q.ptr ≡ last d front
      → (q.heap d).needrel ≡ true
      → (q.heap d).prev ≡ first front
      → AllWait q.heap role (suc rank) top d front ts
      → (r : LinkQueue T × Option T) × (claim_loop
            (suc fuel)
            true
            (move_last (emptied q d cache) d (first front))
            (first front)
          ≡ some r)
        × Takes top r ts
  unfolding emptied claim_loop leave
  take_next fuel q role role' top d rank [] (t ∷ ts) cache c kept idle nonnull at under at_last
        at_head needrel prev w =
      absurd w
  take_next fuel q role role' top d rank [] [] cache c kept idle nonnull at under at_last at_head
        needrel prev w =
      let same = update_self q.heap d (record (q.heap d) { next = 0 }) in
      (
        (leave (emptied q d cache), none),
        rw (move_null (emptied q d cache) d 0 refl) refl,
        (
          refl,
          record {
            role = role';
            cells = c;
            idle = idle;
            shape = inr (
                inr (record {
                  taken = d;
                  rank = rank;
                  front = [];
                  tail = [];
                  nonnull = nonnull;
                  is_role = kept d rank at (omega arith);
                  under = under;
                  at_last = at_last;
                  at_head = at_head;
                  needrel = rw same needrel;
                  prev = rw same prev;
                  wait = tt;
                  held = ap (λ i. i.next) same;
                }));
          },
        ),
      )
  take_next fuel q role role' top d rank (a ∷ front) ts cache c kept idle nonnull at under at_last
        at_head needrel prev w =
      let heap' : ℕ → Item T = update q.heap d (record (q.heap d) { next = 0 }) in
      let same = update_self q.heap d (record (q.heap d) { next = 0 }) in
      let (r, run, takes) =
        take_oldest fuel (record (emptied q d cache) { lst = a }) role' top (suc rank) d a front
          (d ∷ []) ts c idle refl at_head
          (AllWait-kept q.heap heap' role role' (suc rank) top top d (a ∷ front) ts (omega arith)
            (λ b p e above. (
              update_ne q.heap d b _ (apart_rank role d b rank p at e above),
              kept b p e (omega (arith, above)),
            ))
            w)
          (refl, nonnull, rank, kept d rank at (omega arith), omega arith, ap (λ i. i.next) same) in
      (
        r,
        rw (move_some (emptied q d cache) d a at_last (nonnull_first (suc rank) d a front ts w))
            run,
        takes,
      )
    where
      nonnull_first :
          (low start a : ℕ) (front : List ℕ) (ts : List T)
          → AllWait q.heap role low top start (a ∷ front) ts
          → a ≢ 0
      nonnull_first low start a front [] w = absurd w
      nonnull_first low start a front (t ∷ ts) (n, w) = n.nonnull

  get-Spent :
      (fuel : ℕ) (q : LinkQueue T) (top : ℕ) (role : ℕ → Role) (ts : List T)
      → top ≤ fuel
      → Cells q.recycle q.fresh role
      → q.doingrel ≡ false
      → Spent q role top ts
      → Gets (suc fuel) q top ts
  unfolding entered
  get-Spent fuel q top role ts h c idle v =
      let entry = entered (suc fuel) q in
      let few = length-Tail q.heap role v.rank (q.heap v.taken).next v.tail v.held in
      let gone =
        dealloc_loop-IsReleased (suc fuel) (record entry { doingrel = true }) role v.rank
          (q.heap v.taken).next v.tail (omega (arith, few, h, v.under)) c v.held in
      let (r, run, takes) =
        take_next fuel entry role gone.role' top v.taken v.rank v.front ts gone.cache gone.cells
          gone.kept idle v.nonnull v.is_role v.under v.at_last v.at_head v.needrel v.prev v.wait in
      let freed = released (suc fuel) entry v.taken gone.cache v.needrel idle gone.same in
      let next = passes entry v.taken (first v.front) gone.cache v.needrel v.prev in
      (
        r,
        get_some (suc fuel) q _ (first v.front) (λ e. v.nonnull (sym v.at_last ∙ e))
              (from_last (suc fuel) q v.taken _ (first v.front) v.at_last (_, freed, next))
            ∙ run,
        takes,
      )

  get-Void :
      (fuel : ℕ) (q : LinkQueue T) (top : ℕ) (role : ℕ → Role) (ts : List T)
      → Cells q.recycle q.fresh role
      → q.doingrel ≡ false
      → Void q ts
      → Gets fuel q top ts
  unfolding entered
  get-Void fuel q top role ts c idle (e, at_last, at_head) = (
    (entered fuel q, none),
    get_null fuel q at_last,
    (e, record { role = role; cells = c; idle = idle; shape = inl (refl, at_last, at_head) }),
  )

  pub get-Takes :
      (fuel : ℕ) (q : LinkQueue T) (top : ℕ) (ts : List T)
      → top ≤ fuel
      → Holds q top ts
      → Gets (suc fuel) q top ts
  get-Takes fuel q top ts le h = by_shape h.shape
    where
      by_shape : Void q ts ⊎ Live q h.role top ts ⊎ Spent q h.role top ts → Gets (suc fuel) q top ts
      by_shape (inl v) = get-Void (suc fuel) q top h.role ts h.cells h.idle v
      by_shape (inr (inl v)) = get-Live fuel q top h.role ts h.cells h.idle v
      by_shape (inr (inr v)) = get-Spent fuel q top h.role ts le h.cells h.idle v
