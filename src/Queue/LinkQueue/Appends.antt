-- ===== src/Queue/LinkQueue/Appends.antt =====
-- What one call of `put` of `InfiniteLinkQueue` (src/queue.rs) adds to the chain of items.
use water_rs.Prelude.{
  ℕ, suc, ◌+◌, ◌%◌, ◌≤◌, ◌<◌, ◌≡◌, refl, sym, ap, ◌∙◌, ◌≢◌, true, false, List, [], ◌∷◌, ◌++◌, arith,
  ◌==◌,
}
use water_rs.RawMessage.{usize_mod}
use water_rs.Store.{update}
use water_rs.Store.Alias.{update_self, update_ne}
use water_rs.Queue.LinkQueue.{LinkQueue, link, put}
use water_rs.Queue.LinkQueue.Cells.{Role, linked, apart_rank, IsObtained}
use water_rs.Queue.LinkQueue.Chain.{
  first, last, AllWait, Tail, AllWait-append, Tail-kept, last_rank,
}
use water_rs.Queue.LinkQueue.Shape.{Live, Spent, Void}
use water_rs.Queue.LinkQueue.Links.{
  fresh_heap, linked_heap, fresh_at_new, linked_at_new, linked_at_head, linked_at_other, new_node,
}

module _ {T : Type 0} (q : LinkQueue T) (t : T) (top : ℕ) (role : ℕ → Role)
    (o : IsObtained q t role top) where
  -- The queue behind `put`, without the pointers and the memory.
  unfoldable pub counted : LinkQueue T
  counted = record q {
    recycle = o.cache;
    fresh = o.fresh;
    sent = (q.sent + 1) % usize_mod;
    ptr = o.item;
    len = (q.len + 1) % usize_mod;
  }

  pub put_first :
      q.ptr ≡ 0 → put q t ≡ record counted { lst = o.item; heap = fresh_heap q.heap o.item t q.ptr }
  unfolding put counted
  put_first e = let null : (q.ptr == 0) ≡ true = ground (arith, e) in rw (o.run, link, null)

  pub put_behind :
      (head : ℕ)
      → q.ptr ≡ head
      → head ≢ 0
      → put q t ≡ record counted { heap = linked_heap q.heap o.item t head }
  unfolding put counted
  put_behind head e ne =
      let null : (head == 0) ≡ false = ground (arith, ne) in rw (o.run, link, e, null)

  unfoldable pub role' : ℕ → Role
  role' = update role o.item (linked top)

  other : (b r : ℕ) → role b ≡ linked r → o.item ≢ b
  other b r e same = o.free r (ap role same ∙ e)

  ranked : (b r : ℕ) → role b ≡ linked r → role' b ≡ linked r
  unfolding role'
  ranked b r e = update_ne role o.item b (linked top) (other b r e) ∙ e

  appended :
      (low before : ℕ) (front : List ℕ) (ts : List T) (r : ℕ)
      → low ≤ top
      → role (last before front) ≡ linked r
      → AllWait q.heap role low top before front ts
      → AllWait
          (linked_heap q.heap o.item t (last before front))
          role'
          low
          (suc top)
          before
          (front ++ (o.item ∷ []))
          (ts ++ (t ∷ []))
  unfolding role'
  appended low before front ts r h e w =
      let head = last before front in
      let ne = other head r e in
      AllWait-append q.heap (linked_heap q.heap o.item t head) role role' low top before o.item t
        front ts h
        (new_node (linked_heap q.heap o.item t head) role' top head o.item t o.nonnull
          (update_self role o.item (linked top)) (linked_at_new q.heap o.item t head ne))
        (linked_at_head q.heap o.item t head ne)
        (λ b p u. linked_at_other q.heap o.item t head b (other b p u)) ranked w

  -- The items of lower rank stay as they are.
  older :
      (head r low : ℕ)
      → role head ≡ linked r
      → low ≤ r
      → (b p : ℕ) → role b ≡ linked p
      → p < low
      → (linked_heap q.heap o.item t head b ≡ q.heap b) × (role' b ≡ linked p)
  older head r low e h b p u below = (
    linked_at_other q.heap o.item t head b (other b p u)
        (apart_rank role b head p r u e (omega (arith, h, below))),
    ranked b p u,
  )

  last-append : (before : ℕ) (front : List ℕ) → last before (front ++ (o.item ∷ [])) ≡ o.item
  last-append before [] = refl
  last-append before (a ∷ front) = last-append a front

  pub put-Void : Void q [] → Live (put q t) role' (suc top) (t ∷ [])
  unfolding counted role'
  put-Void (e, at_last, at_head) = rw (put_first at_head) (record {
    low = top;
    start = q.ptr;
    oldest = o.item;
    front = [];
    tail = [];
    at_last = refl;
    at_head = refl;
    wait = (
      new_node _ role' top q.ptr o.item t o.nonnull (update_self role o.item (linked top))
          (fresh_at_new q.heap o.item t q.ptr),
      tt,
    );
    held = at_head;
  })

  pub put-Live :
      (ts : List T) → Live q role top ts → Live (put q t) role' (suc top) (ts ++ (t ∷ []))
  unfolding counted role'
  put-Live ts v =
      let (r, e, above, nonnull, under) =
        last_rank q.heap role v.low top v.start v.oldest v.front ts v.wait in
      rw (put_behind (last v.oldest v.front) v.at_head nonnull) (record {
        low = v.low;
        start = v.start;
        oldest = v.oldest;
        front = v.front ++ (o.item ∷ []);
        tail = v.tail;
        at_last = v.at_last;
        at_head = sym (last-append v.oldest v.front);
        wait =
            appended v.low v.start (v.oldest ∷ v.front) ts r (omega (arith, above, under)) e v.wait;
        held =
            Tail-kept q.heap _ role role' v.low v.low v.start v.tail (omega arith)
              (older (last v.oldest v.front) r v.low e above) v.held;
      })

  -- The item that was taken last, where another one waits.
  pub put-Spent :
      (ts : List T) (taken rank : ℕ) (front tail : List ℕ)
      → taken ≢ 0
      → role taken ≡ linked rank
      → rank < top
      → q.lst ≡ taken
      → q.ptr ≡ last taken front
      → (q.heap taken).needrel ≡ true
      → (q.heap taken).prev ≡ first front
      → AllWait q.heap role (suc rank) top taken front ts
      → Tail q.heap role rank (q.heap taken).next tail
      → Spent (put q t) role' (suc top) (ts ++ (t ∷ []))
  unfolding counted role'
  put-Spent ts taken rank [] tail nonnull at under at_last at_head needrel prev wait held =
      let relinked = linked_at_head q.heap o.item t taken (other taken rank at) in
      rw (put_behind taken at_head nonnull) (record {
        taken = taken;
        rank = rank;
        front = o.item ∷ [];
        tail = tail;
        nonnull = nonnull;
        is_role = ranked taken rank at;
        under = omega (arith, under);
        at_last = at_last;
        at_head = refl;
        needrel = rw relinked needrel;
        prev = rw relinked refl;
        wait = appended (suc rank) taken [] ts rank under at wait;
        held = rw relinked (
            Tail-kept q.heap _ role role' rank rank _ tail (omega arith)
              (older taken rank rank at (omega arith)) held);
      })
  put-Spent ts taken rank (a ∷ front) tail nonnull at under at_last at_head needrel prev wait held =
      let (r, e, above, there, below) =
        last_rank q.heap role (suc rank) top taken a front ts wait in
      let (same, kept) = older (last a front) r (suc rank) e above taken rank at (omega arith) in
      rw (put_behind (last a front) at_head there) (record {
        taken = taken;
        rank = rank;
        front = a ∷ front ++ (o.item ∷ []);
        tail = tail;
        nonnull = nonnull;
        is_role = kept;
        under = omega (arith, under);
        at_last = at_last;
        at_head = sym (last-append a front);
        needrel = rw same needrel;
        prev = rw same prev;
        wait = appended (suc rank) taken (a ∷ front) ts r under e wait;
        held = rw same (
            Tail-kept q.heap _ role role' rank rank _ tail (omega arith)
              (older (last a front) r rank e (omega (arith, above))) held);
      })
