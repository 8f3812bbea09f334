-- ===== src/Queue/LinkQueue/Fifo.antt =====
-- `InfiniteLinkQueue` of src/queue.rs is a first-in first-out queue, when no two calls overlap.
use water_rs.Prelude.{
  ℕ, suc, ◌+◌, ◌≤◌, ◌≡◌, refl, inl, List, [], ◌∷◌, ◌++◌, Option, none, some, arith, length,
}
use water_rs.Queue.PointerCache.Slots.{new_room, new_empty}
use water_rs.Queue.LinkQueue.{Item, LinkQueue, new, put, get}
use water_rs.Queue.LinkQueue.Cells.{unused}
use water_rs.Queue.LinkQueue.Shape.{Holds}
use water_rs.Queue.LinkQueue.Get.{Takes}
use water_rs.Queue.LinkQueue.Answer.{get-Takes}
use water_rs.Queue.LinkQueue.Put.{put-Holds}

-- What the users of a queue do, one after another.
pub data Op (T : Type 0) : Type 0 where
  puts : T → Op T
  gets : Op T

-- The answers that a first-in first-out queue gives.
unfoldable pub fifo : {T : Type 0} → List (Op T) → List T → List (Option T)
fifo [] queue = []
fifo (puts t ∷ ops) queue = fifo ops (queue ++ (t ∷ []))
fifo (gets ∷ ops) [] = none ∷ fifo ops []
fifo (gets ∷ ops) (t ∷ queue) = some t ∷ fifo ops queue

-- The calls and the answers of `get`; `none` if a loop does not end.
unfoldable pub calls :
    {T : Type 0} → ℕ → List (Op T) → LinkQueue T → Option (LinkQueue T × List (Option T))
calls fuel [] q = some (q, [])
calls fuel (puts t ∷ ops) q = calls fuel ops (put q t)
calls fuel (gets ∷ ops) q = elim (get fuel q) [
  | none ↦ none
  | some (q', answer) ↦ elim (calls fuel ops q') [
    | none ↦ none
    | some (q'', answers) ↦ some (q'', answer ∷ answers)
  ]
]

module _ {T : Type 0} where
  -- One answer, and those of the calls behind it.
  answered :
      (fuel top : ℕ) (ops : List (Op T)) (q : LinkQueue T) (r : LinkQueue T × Option T)
      (ts : List T)
      → ((q' : LinkQueue T) (left : List T)
          → Holds q' top left
          → (q'' : LinkQueue T) × (calls fuel ops q' ≡ some (q'', fifo ops left)))
      → get fuel q ≡ some r
      → Takes top r ts
      → (q'' : LinkQueue T) × (calls fuel (gets ∷ ops) q ≡ some (q'', fifo (gets ∷ ops) ts))
  unfolding calls fifo
  answered fuel top ops q (q', none) [] later run (e, h) =
      let (q'', rest) = later q' [] h in (q'', rw (calls, run, rest))
  answered fuel top ops q (q', none) (t ∷ ts) later run (e, h) = absurd (ground (arith, e))
  answered fuel top ops q (q', some t) ts later run (left, e, h) =
      let (q'', rest) = later q' left h in (q'', rw (e, calls, run, rest))

  calls_on :
      (fuel : ℕ) (ops : List (Op T)) (q : LinkQueue T) (top : ℕ) (ts : List T)
      → top + length ops ≤ fuel
      → Holds q top ts
      → (q' : LinkQueue T) × (calls (suc fuel) ops q ≡ some (q', fifo ops ts))
  unfolding calls fifo
  calls_on fuel [] q top ts le h = (q, refl)
  calls_on fuel (puts t ∷ ops) q top ts le h =
      calls_on fuel ops (put q t) (suc top) (ts ++ (t ∷ [])) (omega (arith, le))
        (put-Holds q t top ts h)
  calls_on fuel (gets ∷ ops) q top ts le h =
      let (r, run, takes) = get-Takes fuel q top ts (omega (arith, le)) h in
      answered (suc fuel) top ops q r ts
        (λ q' left. calls_on fuel ops q' top left (omega (arith, le))) run takes

  new-Holds : (heap : ℕ → Item T) (block : ℕ → ℕ) → Holds (new heap block) 0 []
  unfolding new
  new-Holds heap block = record {
    role = λ a. unused;
    cells = record {
      room = new_room block 10;
      slots = λ k h ne. absurd (ne (new_empty block 10 k h));
      unknown = λ a h. refl;
    };
    idle = refl;
    shape = inl (refl, refl, refl);
  }

  -- From a new queue, any sequence of `put` and `get` of which no two overlap comes to an end, and the
  -- answers are those of a list to which every `put` appends its value and from which every `get` takes
  -- the first, `None` when there is none. No loop takes more rounds than there are calls, and one more.
  pub calls-fifo :
      (ops : List (Op T)) (heap : ℕ → Item T) (block : ℕ → ℕ)
      → (q' : LinkQueue T) × (calls (suc (length ops)) ops (new heap block)
          ≡ some (q', fifo ops []))
  calls-fifo ops heap block =
      calls_on (length ops) ops (new heap block) 0 [] (omega arith) (new-Holds heap block)
