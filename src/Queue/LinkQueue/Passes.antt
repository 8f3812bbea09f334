-- ===== src/Queue/LinkQueue/Passes.antt =====
-- The items that a call of `get` of `InfiniteLinkQueue` (src/queue.rs) passes over or gives up.
use water_rs.Prelude.{
  ℕ, suc, ◌+◌, ◌%◌, ◌≡◌, refl, sym, ap, ◌∙◌, ◌≢◌, true, false, List, [], ◌∷◌, Option, none, some,
  arith, ◌==◌,
}
use water_rs.RawMessage.{usize_mod}
use water_rs.Store.{update}
use water_rs.Store.Alias.{update_self}
use water_rs.Queue.PointerCache.{PointerCache}
use water_rs.Queue.LinkQueue.{
  LinkQueue, get, taildealloc, release, advance, move_last, claim_loop, dealloc_loop,
}
use water_rs.Queue.LinkQueue.Cells.{Role, Cells}
use water_rs.Queue.LinkQueue.Chain.{AllWait}
use water_rs.Queue.LinkQueue.Shape.{Live}
use water_rs.Queue.LinkQueue.Get.{Takes, take_oldest}

-- A call of `get` answers, and takes what it should.
abbrev pub Gets : {T : Type 0} → ℕ → LinkQueue T → ℕ → List T → Type 0
Gets {T = T} fuel q top ts = (r : LinkQueue T × Option T) × (get fuel q ≡ some r) × Takes top r ts

-- From the last pointer `lst`, `get` comes to the item `cur`.
abbrev pub Comes : {T : Type 0} → ℕ → LinkQueue T → ℕ → LinkQueue T → ℕ → Type 0
Comes {T = T} fuel q lst q2 cur =
    (freed : LinkQueue T) × (release fuel q lst ≡ some freed) × (advance freed lst ≡ (q2, cur))

module _ {T : Type 0} (fuel : ℕ) (q : LinkQueue T) where
  unfoldable pub entered : LinkQueue T
  entered = record q { rinside = (q.rinside + 1) % usize_mod }

  pub get_null : q.lst ≡ 0 → get fuel q ≡ some (entered, none)
  unfolding get entered
  get_null e = rw e

  pub get_some :
      (q2 : LinkQueue T) (cur : ℕ)
      → q.lst ≢ 0
      → Comes fuel entered q.lst q2 cur
      → get fuel q ≡ claim_loop fuel true q2 cur
  unfolding get entered
  get_some q2 cur ne (freed, r, e) =
      let null : (q.lst == 0) ≡ false = ground (arith, ne) in rw (null, r, e)

  pub from_last :
      (lst : ℕ) (q2 : LinkQueue T) (cur : ℕ)
      → q.lst ≡ lst
      → Comes fuel entered lst q2 cur
      → Comes fuel entered q.lst q2 cur
  from_last lst q2 cur e (freed, r, run) =
      (freed, ap (λ l. release fuel entered l) e ∙ r, ap (λ l. advance freed l) e ∙ run)

module _ {T : Type 0} where
  -- An item that waits is not passed over.
  stays : (fuel : ℕ) (q : LinkQueue T) (a : ℕ) → (q.heap a).needrel ≡ false → Comes fuel q a q a
  unfolding release advance
  stays fuel q a e = (q, unreleased, same)
    where
      unreleased : release fuel q a ≡ some q
      unreleased = rw (release, e)

      same : advance q a ≡ (q, a)
      same = rw (advance, e)

  -- The item that was taken last gives up those behind it.
  unfoldable pub emptied : LinkQueue T → ℕ → PointerCache → LinkQueue T
  emptied q d cache = record q {
    recycle = cache;
    heap = update q.heap d (record (q.heap d) { next = 0 });
  }

  pub released :
      (fuel : ℕ) (q : LinkQueue T) (d : ℕ) (cache : PointerCache)
      → (q.heap d).needrel ≡ true
      → q.doingrel ≡ false
      → dealloc_loop fuel (record q { doingrel = true }) (q.heap d).next
        ≡ some (record q { doingrel = true; recycle = cache })
      → release fuel q d ≡ some (emptied q d cache)
  unfolding release taildealloc emptied
  released fuel q d cache e idle run = rw (e, idle, run) (rw e refl)

  pub passes :
      (q : LinkQueue T) (d p : ℕ) (cache : PointerCache)
      → (q.heap d).needrel ≡ true
      → (q.heap d).prev ≡ p
      → advance (emptied q d cache) d ≡ (move_last (emptied q d cache) d p, p)
  unfolding advance emptied
  passes q d p cache e at = rw (update_self q.heap d (record (q.heap d) { next = 0 }), e, at)

  pub get-Live :
      (fuel : ℕ) (q : LinkQueue T) (top : ℕ) (role : ℕ → Role) (ts : List T)
      → Cells q.recycle q.fresh role
      → q.doingrel ≡ false
      → Live q role top ts
      → Gets (suc fuel) q top ts
  unfolding entered
  get-Live fuel q top role ts c idle v =
      let (r, run, takes) =
        take_oldest fuel (entered (suc fuel) q) role top v.low v.start v.oldest v.front v.tail ts c
          idle v.at_last v.at_head v.wait v.held in
      let (nonnull, waits) = oldest_waits v.low v.start v.oldest v.front ts v.wait in
      let reached =
        from_last (suc fuel) q v.oldest (entered (suc fuel) q) v.oldest v.at_last
          (stays (suc fuel) (entered (suc fuel) q) v.oldest waits) in
      (
        r,
        get_some (suc fuel) q (entered (suc fuel) q) v.oldest (λ e. nonnull (sym v.at_last ∙ e))
              reached
            ∙ run,
        takes,
      )
    where
      oldest_waits :
          (low start a : ℕ) (front : List ℕ) (ts : List T)
          → AllWait q.heap role low top start (a ∷ front) ts
          → (a ≢ 0) × ((q.heap a).needrel ≡ false)
      oldest_waits low start a front [] w = absurd w
      oldest_waits low start a front (t ∷ ts) (n, w) = (n.nonnull, n.needrel)
