-- ===== src/Queue/RingQueue/Atomic.antt =====
-- `put` and `maybeget` of `SizedRingQueue` (src/queue.rs) from one atomic access to the next, and one
-- thread at each end of a queue.
pub mod View
pub mod Slots
pub mod Filling
pub mod Puts
pub mod Taking
pub mod Gets
pub mod Runs
pub mod Fifo
pub mod Alone
pub mod Receives
mod Tests
use water_rs.Prelude.{
  ℕ, suc, ◌+◌, ◌-◌, ◌%◌, ◌<◌, ◌≡◌, Bool, true, false, List, [], ◌∷◌, ◌++◌, Option, none, some, ◌==◌,
  if◌then◌else◌,
}
use water_rs.RawMessage.{usize_mod}
use water_rs.Store.{update}
use water_rs.Queue.RingQueue.{SizedRingQueue, SizedRingQueueItem, compare_and_swap, new}

-- Where a thread stands in `put`: outside, before `fetch_add`, in the loop, behind it, behind
-- `copy_memory`, behind the store of the state.
pub data Put (A : Type 0) : Type 0 where
  idle : Put A
  entering : A → Put A
  claiming copying storing : ℕ → A → Put A
  counting : Put A

-- And in `maybeget`: outside, before `fetch_add`, before `compare_and_swap`, behind one that failed,
-- behind one that did not, behind `copy_memory`, behind the store of the state, in front of `return`.
pub data Get (A : Type 0) : Type 0 where
  idle entering : Get A
  taking : ℕ → Get A
  undoing : Get A
  reading : ℕ → Get A
  clearing : ℕ → Option A → Get A
  uncounting : Option A → Get A
  returned : Option A → Get A

module _ {A : Type 0} where
  abbrev pub set_state : SizedRingQueue A → ℕ → ℕ → SizedRingQueue A
  set_state q pos state = record q {
    block = update q.block pos (record (q.block pos) { state = state });
  }

  unfoldable pub put_step : Put A → SizedRingQueue A → Put A × SizedRingQueue A
  unfolding compare_and_swap
  put_step Put.idle q = (Put.idle, q)
  put_step (Put.entering t) q =
      (Put.claiming (q.tx % q.size) t, record q { tx = (q.tx + 1) % usize_mod })
  put_step (Put.claiming pos t) q =
      let (old, state) = compare_and_swap (q.block pos).state 0 1 in
      (if old == 0 then Put.claiming pos t else Put.copying pos t, set_state q pos state)
  put_step (Put.copying pos t) q = (
    Put.storing pos t,
    record q { block = update q.block pos (record (q.block pos) { value = some t }) },
  )
  put_step (Put.storing pos t) q = (Put.counting, set_state q pos 2)
  put_step Put.counting q = (Put.idle, record q { len = (q.len + 1) % usize_mod })

  -- `block` tells whether the call waits for a value.
  unfoldable pub get_step : Bool → Get A → SizedRingQueue A → Get A × SizedRingQueue A
  unfolding compare_and_swap
  get_step block Get.idle q = (Get.idle, q)
  get_step block Get.entering q =
      (Get.taking (q.rx % q.size), record q { rx = (q.rx + 1) % usize_mod })
  get_step block (Get.taking pos) q =
      let (old, state) = compare_and_swap (q.block pos).state 2 3 in
      (
        if old == 2 then Get.reading pos else if block then Get.undoing else Get.returned none,
        set_state q pos state,
      )
  get_step block Get.undoing q =
      (Get.entering, record q { rx = (q.rx + usize_mod - 1) % usize_mod })
  get_step block (Get.reading pos) q = (Get.clearing pos (q.block pos).value, q)
  get_step block (Get.clearing pos t) q = (Get.uncounting t, set_state q pos 0)
  get_step block (Get.uncounting t) q =
      (Get.returned t, record q { len = (q.len + usize_mod - 1) % usize_mod })
  get_step block (Get.returned t) q = (Get.returned t, q)

-- A queue between a thread that sends and one that receives, with the values that the one passed to
-- `put` and the other got.
pub record Ends (A : Type 0) : Type 0 where
  pub q : SizedRingQueue A
  pub producer : Put A
  pub consumer : Get A
  pub sent : List A
  pub got : List A

-- The sender asks `len()` before it calls `put`; the receiver calls `maybeget(true)`.
pub data Step {A : Type 0} (s : Ends A) : Ends A → Type 0 where
  calls_put :
      (t : A)
      → s.producer ≡ Put.idle
      → s.q.len < s.q.size
      → Step s (record s { producer = Put.entering t; sent = s.sent ++ (t ∷ []) })
  puts :
      Step s (record s { producer = (put_step s.producer s.q).0; q = (put_step s.producer s.q).1 })
  calls_get : s.consumer ≡ Get.idle → Step s (record s { consumer = Get.entering })
  gets : Step s (record s {
    consumer = (get_step true s.consumer s.q).0;
    q = (get_step true s.consumer s.q).1;
  })
  returns :
      (t : A)
      → s.consumer ≡ Get.returned (some t)
      → Step s (record s { consumer = Get.idle; got = s.got ++ (t ∷ []) })

pub data Reach {A : Type 0} (s : Ends A) : Ends A → Type 0 where
  here : Reach s s
  later : {t u : Ends A} → Reach s t → Step t u → Reach s u

abbrev pub start : {A : Type 0} → ℕ → Ends A
start bsize = record {
  q = new bsize;
  producer = Put.idle;
  consumer = Get.idle;
  sent = [];
  got = [];
}
