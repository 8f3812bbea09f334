-- ===== src/Queue/LinkQueue/Put.antt =====
-- `put` of `InfiniteLinkQueue` (src/queue.rs) adds the newest value.
use water_rs.Prelude.{ℕ, suc, ◌≡◌, refl, ◌∙◌, ◌⊎◌, inl, inr, List, [], ◌∷◌, ◌++◌, arith}
use water_rs.Store.{update}
use water_rs.Queue.LinkQueue.{LinkQueue, put}
use water_rs.Queue.LinkQueue.Cells.{Role, linked, IsObtained, item_for-IsObtained, eq_cases}
use water_rs.Queue.LinkQueue.Shape.{Live, Spent, Void, Holds}
use water_rs.Queue.LinkQueue.Appends.{
  counted, put_first, put_behind, role', put-Void, put-Live, put-Spent,
}

put_shape :
    {T : Type 0} (q : LinkQueue T) (t : T) (top : ℕ) (role : ℕ → Role) (ts : List T)
    → (o : IsObtained q t role top) → Void q ts ⊎ Live q role top ts ⊎ Spent q role top ts
    → Live (put q t) (update role o.item (linked top)) (suc top) (ts ++ (t ∷ []))
      ⊎ Spent (put q t) (update role o.item (linked top)) (suc top) (ts ++ (t ∷ []))
unfolding role'
put_shape q t top role [] o (inl v) = inl (put-Void q t top role o v)
put_shape q t top role (t' ∷ ts) o (inl v) = absurd (ground (arith, v.0))
put_shape q t top role ts o (inr (inl v)) = inl (put-Live q t top role o ts v)
put_shape q t top role ts o (inr (inr v)) = inr (
    put-Spent q t top role o ts v.taken v.rank v.front v.tail v.nonnull v.is_role v.under v.at_last
      v.at_head v.needrel v.prev v.wait v.held)

put_rest :
    {T : Type 0} (q : LinkQueue T) (t : T) (top : ℕ) (role : ℕ → Role) (o : IsObtained q t role top)
    → ((put q t).recycle ≡ o.cache)
      × ((put q t).fresh ≡ o.fresh)
      × ((put q t).doingrel ≡ q.doingrel)
unfolding counted
put_rest q t top role o = elim (eq_cases q.ptr 0) [
  | inl e ↦ rw (put_first q t top role o e) (refl, refl, refl)
  | inr ne ↦ rw (put_behind q t top role o q.ptr refl ne) (refl, refl, refl)
]

pub put-Holds :
    {T : Type 0} (q : LinkQueue T) (t : T) (top : ℕ) (ts : List T)
    → Holds q top ts
    → Holds (put q t) (suc top) (ts ++ (t ∷ []))
put-Holds q t top ts h =
    let o = item_for-IsObtained q t h.role top h.cells in
    let (cache, fresh, doing) = put_rest q t top h.role o in
    record {
      role = update h.role o.item (linked top);
      cells = rw (cache, fresh) o.cells;
      idle = doing ∙ h.idle;
      shape = inr (put_shape q t top h.role ts o h.shape);
    }
