-- ===== src/Queue/LinkQueue/Release.antt =====
-- `taildealloc` of `InfiniteLinkQueue` (src/queue.rs) moves the items behind one into the cache.
use water_rs.Prelude.{
  ℕ, zero, suc, ◌%◌, ◌≤◌, ◌<◌, ◌≡◌, refl, sym, ◌∙◌, false, List, [], ◌∷◌, Option, some, arith, ◌==◌,
  length,
}
use water_rs.Store.{update}
use water_rs.Store.Alias.{update_ne}
use water_rs.Queue.PointerCache
use water_rs.Queue.PointerCache.{PointerCache}
use water_rs.Queue.LinkQueue.{LinkQueue, dealloc_loop}
use water_rs.Queue.LinkQueue.Cells.{Role, linked, cached, Cells, apart_rank, push-Cells}
use water_rs.Queue.LinkQueue.Chain.{Tail, Tail-kept}

-- The loop is over: the items behind rank `low` are in the cache; the others stay where they are.
pub record IsReleased {T : Type 0} (q : LinkQueue T) (role : ℕ → Role) (low : ℕ)
    (q' : Option (LinkQueue T)) : Type 0 where
  pub cache : PointerCache
  pub role' : ℕ → Role
  pub same : q' ≡ some (record q { recycle = cache })
  pub cells : Cells cache q.fresh role'
  pub kept : (b r : ℕ) → role b ≡ linked r → low ≤ r → role' b ≡ linked r

module _ {T : Type 0} where
  pub dealloc_loop-IsReleased :
      (fuel : ℕ) (q : LinkQueue T) (role : ℕ → Role) (low start : ℕ) (tail : List ℕ)
      → length tail < fuel
      → Cells q.recycle q.fresh role
      → Tail q.heap role low start tail
      → IsReleased q role low (dealloc_loop fuel q start)
  unfolding dealloc_loop
  dealloc_loop-IsReleased zero q role low start [] h c w = absurd (omega arith)
  dealloc_loop-IsReleased (suc fuel) q role low start [] h c w = record {
    cache = q.recycle;
    role' = role;
    same = rw w;
    cells = c;
    kept = λ b r e above. e;
  }
  dealloc_loop-IsReleased zero q role low start (d ∷ tail) h c w = absurd (omega arith)
  dealloc_loop-IsReleased (suc fuel) q role low start (d ∷ tail) h c (e, nonnull, r, at, under, w) =
      let pushed = (PointerCache.push q.recycle d).0 in
      let marked : ℕ → Role = update role d (cached (q.recycle.pos % q.recycle.size)) in
      let some_item : (d == 0) ≡ false = ground (arith, nonnull) in
      let v =
        dealloc_loop-IsReleased fuel (record q { recycle = pushed }) marked r (q.heap d).next tail
          (omega (arith, h)) (push-Cells q.recycle q.fresh role c d r at)
          (Tail-kept q.heap q.heap role marked r r (q.heap d).next tail (omega arith)
            (λ b p u below.
              (refl, update_ne role d b _ (λ s. apart_rank role b d p r u at below (sym s)) ∙ u))
            w) in
      record {
        cache = v.cache;
        role' = v.role';
        same = rw (e, some_item) v.same;
        cells = v.cells;
        kept = λ b p u above.
            v.kept b p
              (update_ne role d b _ (apart_rank role d b r p at u (omega (arith, under, above)))
                ∙ u)
              (omega (arith, under, above));
      }
