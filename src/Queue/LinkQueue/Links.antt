-- ===== src/Queue/LinkQueue/Links.antt =====
-- The memory behind `put` of `InfiniteLinkQueue` (src/queue.rs).
use water_rs.Prelude.{ℕ, suc, ◌≡◌, refl, sym, ap, ◌∙◌, ◌≢◌, arith}
use water_rs.Store.{update}
use water_rs.Store.Alias.{update_self, update_ne}
use water_rs.Queue.LinkQueue.{Item, new_item}
use water_rs.Queue.LinkQueue.Cells.{Role, linked}
use water_rs.Queue.LinkQueue.Chain.{Node}

-- The memory behind `put` with item `x`, before the old head gets its link, and behind that.
abbrev pub fresh_heap : {T : Type 0} → (ℕ → Item T) → ℕ → T → ℕ → ℕ → Item T
fresh_heap heap x t head =
    let made = update heap x (new_item t) in update made x (record (made x) { next = head })

abbrev pub linked_heap : {T : Type 0} → (ℕ → Item T) → ℕ → T → ℕ → ℕ → Item T
linked_heap heap x t head =
    let made = fresh_heap heap x t head in update made head (record (made head) { prev = x })

module _ {T : Type 0} (heap : ℕ → Item T) (x : ℕ) (t : T) (head : ℕ) where
  made : ℕ → Item T
  made = update heap x (new_item t)

  fresh : ℕ → Item T
  fresh = fresh_heap heap x t head

  pub fresh_at_new : fresh_heap heap x t head x ≡ record (new_item t) { next = head }
  unfolding made
  fresh_at_new =
      update_self made x (record (made x) { next = head })
      ∙ ap {A = Item T} (λ i. record i { next = head }) (update_self heap x (new_item t))

  fresh_at_other : (b : ℕ) → x ≢ b → fresh_heap heap x t head b ≡ heap b
  unfolding made
  fresh_at_other b ne =
      update_ne made x b (record (made x) { next = head }) ne ∙ update_ne heap x b (new_item t) ne

  pub linked_at_new : x ≢ head → linked_heap heap x t head x ≡ record (new_item t) { next = head }
  unfolding fresh
  linked_at_new ne =
      update_ne fresh head x (record (fresh head) { prev = x }) (λ e. ne (sym e)) ∙ fresh_at_new

  pub linked_at_head : x ≢ head → linked_heap heap x t head head ≡ record (heap head) { prev = x }
  unfolding fresh
  linked_at_head ne =
      update_self fresh head (record (fresh head) { prev = x })
      ∙ ap {A = Item T} (λ i. record i { prev = x }) (fresh_at_other head ne)

  pub linked_at_other : (b : ℕ) → x ≢ b → b ≢ head → linked_heap heap x t head b ≡ heap b
  unfolding fresh
  linked_at_other b ne ne' =
      update_ne fresh head b (record (fresh head) { prev = x }) (λ e. ne' (sym e))
      ∙ fresh_at_other b ne

pub new_node :
    {T : Type 0} (heap : ℕ → Item T) (role : ℕ → Role) (top head x : ℕ) (t : T)
    → x ≢ 0
    → role x ≡ linked top
    → heap x ≡ record (new_item t) { next = head }
    → Node heap role top (suc top) head x 0 t
new_node heap role top head x t nonnull e same = record {
  rank = top;
  is_role = e;
  above = omega arith;
  under = omega arith;
  nonnull = nonnull;
  next = rw same refl;
  prev = rw same refl;
  claimed = rw same refl;
  needrel = rw same refl;
  payload = rw same refl;
}
