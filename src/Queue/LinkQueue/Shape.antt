-- ===== src/Queue/LinkQueue/Shape.antt =====
-- The states of `InfiniteLinkQueue` (src/queue.rs) between two calls.
use water_rs.Prelude.{ℕ, suc, ◌<◌, ◌≡◌, ◌≢◌, ◌⊎◌, true, false, List, [], ◌∷◌}
use water_rs.Queue.LinkQueue.{LinkQueue}
use water_rs.Queue.LinkQueue.Cells.{Role, linked, Cells}
use water_rs.Queue.LinkQueue.Chain.{first, last, AllWait, Tail}

-- `lst` is the oldest item that waits.
pub record Live {T : Type 0} (q : LinkQueue T) (role : ℕ → Role) (top : ℕ) (ts : List T)
    : Type 0 where
  pub low : ℕ
  pub start : ℕ
  pub oldest : ℕ
  pub front : List ℕ
  pub tail : List ℕ
  pub at_last : q.lst ≡ oldest
  pub at_head : q.ptr ≡ last oldest front
  pub wait : AllWait q.heap role low top start (oldest ∷ front) ts
  pub held : Tail q.heap role low start tail

-- `lst` is the item that was taken last; those that wait are before it.
pub record Spent {T : Type 0} (q : LinkQueue T) (role : ℕ → Role) (top : ℕ) (ts : List T)
    : Type 0 where
  pub taken : ℕ
  pub rank : ℕ
  pub front : List ℕ
  pub tail : List ℕ
  pub nonnull : taken ≢ 0
  pub is_role : role taken ≡ linked rank
  pub under : rank < top
  pub at_last : q.lst ≡ taken
  pub at_head : q.ptr ≡ last taken front
  pub needrel : (q.heap taken).needrel ≡ true
  pub prev : (q.heap taken).prev ≡ first front
  pub wait : AllWait q.heap role (suc rank) top taken front ts
  pub held : Tail q.heap role rank (q.heap taken).next tail

-- Nothing was ever put into the queue.
abbrev pub Void : {T : Type 0} → LinkQueue T → List T → Type 0
Void q ts = (ts ≡ []) × (q.lst ≡ 0) × (q.ptr ≡ 0)

-- The queue holds these values, the oldest first; `top` calls of `put` came before.
pub record Holds {T : Type 0} (q : LinkQueue T) (top : ℕ) (ts : List T) : Type 0 where
  pub role : ℕ → Role
  pub cells : Cells q.recycle q.fresh role
  pub idle : q.doingrel ≡ false
  pub shape : Void q ts ⊎ Live q role top ts ⊎ Spent q role top ts
