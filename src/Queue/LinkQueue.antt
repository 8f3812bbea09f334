-- ===== src/Queue/LinkQueue.antt =====
-- `InfiniteLinkQueue` of src/queue.rs, each method run without interruption. Items are the cells of a
-- heap; a pointer is the number of a cell, 0 is null.
pub mod Cells
pub mod Chain
pub mod Shape
pub mod Links
pub mod Appends
pub mod Put
pub mod Release
pub mod Get
pub mod Passes
pub mod Answer
pub mod Fifo
use water_rs.Prelude.{
  ℕ, zero, suc, ◌+◌, ◌-◌, ◌%◌, Bool, true, false, Option, none, some, ◌==◌, if◌then◌else◌,
}
use water_rs.RawMessage.{usize_mod}
use water_rs.Store.{update}
use water_rs.Queue.PointerCache
use water_rs.Queue.PointerCache.{PointerCache}

pub record Item {ℓ} (T : Type ℓ) : Type ℓ where
  pub next : ℕ
  pub prev : ℕ
  pub claimed : Bool
  pub needrel : Bool
  pub payload : T

-- `Box::new` returns the cell behind `fresh`. Memory that is deallocated is not used again.
pub record LinkQueue {ℓ} (T : Type ℓ) : Type ℓ where
  pub ptr : ℕ
  pub lst : ℕ
  pub rinside : ℕ
  pub len : ℕ
  pub sent : ℕ
  pub needrel : ℕ
  pub doingrel : Bool
  pub recycle : PointerCache
  pub heap : ℕ → Item T
  pub fresh : ℕ

-- `heap` is what the memory holds before anything is allocated, `block` that of the cache.
unfoldable pub new {ℓ} : {T : Type ℓ} → (ℕ → Item T) → (ℕ → ℕ) → LinkQueue T
new heap block = record {
  ptr = 0;
  lst = 0;
  rinside = 0;
  len = 0;
  sent = 0;
  needrel = 0;
  doingrel = false;
  recycle = PointerCache.new block 10;
  heap = heap;
  fresh = 0;
}

module _ {ℓ} {T : Type ℓ} where
  abbrev pub set_item : LinkQueue T → ℕ → Item T → LinkQueue T
  set_item q p item = record q { heap = update q.heap p item }

  abbrev pub new_item : T → Item T
  new_item t = record { next = 0; prev = 0; claimed = false; needrel = false; payload = t }

  -- The item of `put`: one that was released, or a new one.
  unfoldable pub item_for : LinkQueue T → T → LinkQueue T × ℕ
  unfolding PointerCache.pop
  item_for q t =
      let (recycle, popped) = PointerCache.pop q.recycle in
      elim popped [
        | some item ↦ (set_item (record q { recycle = recycle }) item (new_item t), item)
        | none ↦ (
          set_item (record q { recycle = recycle; fresh = suc q.fresh }) (suc q.fresh) (new_item t),
          suc q.fresh,
        )
      ]

  -- `put`, behind the choice of the item.
  unfoldable pub link : LinkQueue T → ℕ → LinkQueue T
  link q item =
      let oldhead = q.ptr in
      let linked = record (set_item q item (record (q.heap item) { next = oldhead })) {
        sent = (q.sent + 1) % usize_mod;
        ptr = item;
        len = (q.len + 1) % usize_mod;
      } in
      if oldhead == 0
      then record linked { lst = item }
      else set_item linked oldhead (record (linked.heap oldhead) { prev = item })

  unfoldable pub put : LinkQueue T → T → LinkQueue T
  unfolding item_for link
  put q t = let (q', item) = item_for q t in link q' item

  -- The loop of `taildealloc`; `none` if `fuel` rounds do not end it.
  unfoldable pub dealloc_loop : ℕ → LinkQueue T → ℕ → Option (LinkQueue T)
  unfolding PointerCache.push
  dealloc_loop zero q cur = none
  dealloc_loop (suc fuel) q cur =
      let rest =
        dealloc_loop fuel (record q { recycle = (PointerCache.push q.recycle cur).0 })
          (q.heap cur).next in
      if cur == 0 then some q else rest

  unfoldable pub taildealloc : ℕ → LinkQueue T → ℕ → Option (LinkQueue T)
  unfolding dealloc_loop
  taildealloc fuel q after = elim (dealloc_loop fuel q (q.heap after).next) [
    | none ↦ none
    | some q' ↦ some (set_item q' after (record (q'.heap after) { next = 0 }))
  ]

  -- The first test of `get` on `needrel`.
  unfoldable pub release : ℕ → LinkQueue T → ℕ → Option (LinkQueue T)
  unfolding taildealloc
  release fuel q cur =
      let released : Option (LinkQueue T) =
        elim (taildealloc fuel (record q { doingrel = true }) cur) [
          | none ↦ none
          | some q' ↦ some (record q' { doingrel = false })
        ] in
      if (q.heap cur).needrel then (if q.doingrel then some q else released) else some q

  -- `lst.compare_and_swap(cur, nlst)`, unless `nlst` is null.
  unfoldable pub move_last : LinkQueue T → ℕ → ℕ → LinkQueue T
  move_last q cur nlst =
      if nlst == 0 then q else if q.lst == cur then record q { lst = nlst } else q

  -- The second test.
  unfoldable pub advance : LinkQueue T → ℕ → LinkQueue T × ℕ
  unfolding move_last
  advance q cur =
      let nlst = (q.heap cur).prev in
      if (q.heap cur).needrel then (move_last q cur nlst, nlst) else (q, cur)

  unfoldable pub leave : LinkQueue T → LinkQueue T
  leave q = record q { rinside = (q.rinside + usize_mod - 1) % usize_mod }

  -- What the loop of `get` does with an item that nobody has claimed, up to the move of `lst`.
  unfoldable pub mark : LinkQueue T → ℕ → LinkQueue T
  mark q cur = record (set_item q cur (record (q.heap cur) { claimed = true })) {
    len = (q.len + usize_mod - 1) % usize_mod;
  }

  -- And behind it.
  unfoldable pub take : LinkQueue T → ℕ → LinkQueue T × T
  unfolding leave
  take q cur = (
    leave (record (set_item q cur (record (q.heap cur) { needrel = true })) {
      needrel = (q.needrel + 1) % usize_mod;
    }),
    (q.heap cur).payload,
  )

  unfoldable pub claim : Bool → LinkQueue T → ℕ → LinkQueue T × T
  unfolding mark take move_last
  claim first q cur =
      let marked = mark q cur in
      take (if first then move_last marked cur (marked.heap cur).prev else marked) cur

  -- The loop of `get`; `none` if `fuel` rounds do not end it.
  unfoldable pub claim_loop : ℕ → Bool → LinkQueue T → ℕ → Option (LinkQueue T × Option T)
  claim_loop zero first q cur = none
  claim_loop (suc fuel) first q cur =
      let rest = claim_loop fuel false q (q.heap cur).prev in
      let (q', payload) = claim first q cur in
      if cur == 0
      then some (leave q, none)
      else if (q.heap cur).claimed
      then rest
      else some (q', some payload)

  -- `none` if one of its loops is not over within `fuel` rounds.
  unfoldable pub get : ℕ → LinkQueue T → Option (LinkQueue T × Option T)
  get fuel q =
      let entered = record q { rinside = (q.rinside + 1) % usize_mod } in
      let taken : Option (LinkQueue T × Option T) = elim (release fuel entered q.lst) [
        | none ↦ none
        | some freed ↦ let (q', cur) = advance freed q.lst in claim_loop fuel true q' cur
      ] in
      if q.lst == 0 then some (entered, none) else taken

  -- The loop of `deallocall`, with the count of the items; `none` if `fuel` rounds do not end it.
  unfoldable pub deallocall_loop : ℕ → LinkQueue T → ℕ → ℕ → Option (LinkQueue T × ℕ)
  unfolding PointerCache.push
  deallocall_loop zero q cur cnt = none
  deallocall_loop (suc fuel) q cur cnt =
      let rest =
        deallocall_loop fuel (record q { recycle = (PointerCache.push q.recycle cur).0 })
          (q.heap cur).next (cnt + 1) in
      if cur == 0 then some (q, cnt) else rest

  unfoldable pub deallocall : ℕ → LinkQueue T → Option (LinkQueue T)
  unfolding deallocall_loop
  deallocall fuel q = elim (deallocall_loop fuel (record q { ptr = 0; lst = 0 }) q.ptr 0) [
    | none ↦ none
    | some (q', cnt) ↦
        some (record q' { needrel = (q'.needrel + usize_mod - cnt % usize_mod) % usize_mod })
  ]
