-- ===== src/Store.antt =====
-- The memory that messages share: what `Arc<Mutex<..>>` points at. A cell is named by its number, and
-- two handles with one number are two owners of one cell, as after `Arc::clone`. On it stand the
-- methods of `RawMessage` (src/rawmessage.rs), a handle to a shared `Internal`.
pub mod Alias
pub mod Numbers
mod Tests
use water_rs.Prelude.{
  ℕ, suc, ◌<◌, Bool, true, List, Outcome, done, panicked, undefined, ◌==◌, if◌then◌else◌,
}
use water_rs.RawMessage.{Internal, IsValid, Layout, usize_mod}
use water_rs.RawMessage.{
  new as new_internal, dup as dup_internal, setlen as setlen_internal, resize as resize_internal,
  new_fromstr as fill_internal, write_from_slice as write_internal, as_slice as bytes_of,
  writestructref as put_struct, readstructunsaferef as get_struct,
}

-- `buffer` holds the cells of raw messages, `valid` those of `SyncMessage::valid`. Cells from `next`
-- on are free; `mem k` is what stands in the memory that allocation `k` returns. Nothing dangles: an
-- `Arc` keeps its cell.
pub record Store : Type 0 where
  pub next : ℕ
  pub buffer : ℕ → Internal
  pub valid : ℕ → Bool
  pub mem : ℕ → ℕ → ℕ

abbrev pub update {ℓ} : {A : Type ℓ} → (ℕ → A) → ℕ → A → ℕ → A
update f p v q = if p == q then v else f q

-- An operation reads and changes the store, and may panic.
abbrev pub M {ℓ} : Type ℓ → Type ℓ
M A = Store → Outcome (A × Store)

abbrev pub pure {ℓ} : {A : Type ℓ} → A → M A
pure a s = done (a, s)

abbrev pub panic {ℓ} : {A : Type ℓ} → M A
panic s = panicked

abbrev pub and_then {ℓ κ} :
    {A : Type ℓ} {B : Type κ} → Outcome (A × Store) → (A → M B) → Outcome (B × Store)
and_then (done (a, s)) f = f a s
and_then panicked f = panicked
and_then undefined f = undefined

infixl 5 ◌>>=◌ ◌>>◌
abbrev pub ◌>>=◌ {ℓ κ} : {A : Type ℓ} {B : Type κ} → M A → (A → M B) → M B
◌>>=◌ m f s = and_then (m s) f

abbrev pub ◌>>◌ {ℓ κ} : {A : Type ℓ} {B : Type κ} → M A → M B → M B
m >> k = m >>= λ _. k

-- Every buffer is as `allocate` promised, and its capacity is a `usize`.
pub record IsSound (s : Store) : Type 0 where
  pub buffers : (p : ℕ) → IsValid (s.buffer p)
  pub sized : (p : ℕ) → (s.buffer p).cap < usize_mod

abbrev pub RawMessage : Type 0
RawMessage = ℕ

-- A new cell.
unfoldable pub share : Outcome Internal → M RawMessage
share (done i) s = done (s.next, record s { next = suc s.next; buffer = update s.buffer s.next i })
share panicked s = panicked
share undefined s = undefined

-- A change of a cell, under its lock.
unfoldable pub modify : RawMessage → (Internal → Outcome Internal) → M (Unit {0})
modify r f s = put (f (s.buffer r))
  where
    put : Outcome Internal → Outcome (Unit {0} × Store)
    put (done i) = done (tt, record s { buffer = update s.buffer r i })
    put panicked = panicked
    put undefined = undefined

unfoldable pub new : ℕ → M RawMessage
unfolding share
new cap s = share (done (new_internal (s.mem s.next) cap)) s

-- `RawMessage::clone`: the same buffer.
unfoldable pub clone : RawMessage → RawMessage
clone r = r

unfoldable pub dup : RawMessage → M RawMessage
unfolding share
dup r s = share (dup_internal (s.mem s.next) (s.buffer r)) s

unfoldable pub new_fromstr : List ℕ → M RawMessage
unfolding share
new_fromstr t s = share (fill_internal (s.mem s.next) t) s

unfoldable pub cap : RawMessage → Store → ℕ
cap r s = (s.buffer r).cap

unfoldable pub len : RawMessage → Store → ℕ
len r s = (s.buffer r).len

unfoldable pub setlen : RawMessage → ℕ → M (Unit {0})
unfolding modify
setlen r n = modify r (λ i. setlen_internal i n)

unfoldable pub resize : RawMessage → ℕ → M (Unit {0})
unfolding modify
resize r newcap s = modify r (λ i. resize_internal (s.mem s.next) i newcap) s

unfoldable pub write_from_slice : RawMessage → ℕ → List ℕ → M (Unit {0})
unfolding modify
write_from_slice r offset f = modify r (λ i. write_internal i offset f)

unfoldable pub as_slice : RawMessage → Store → List ℕ
as_slice r s = bytes_of (s.buffer r)

module _ {T : Type 0} (l : Layout T) where
  -- The value is not dropped: the buffer owns it from now on.
  unfoldable pub writestruct : RawMessage → ℕ → T → M (Unit {0})
  unfolding modify
  writestruct r offset t = modify r (λ i. put_struct l i offset t)

  unfoldable pub readstructunsafe : RawMessage → ℕ → M T
  readstructunsafe r offset s = read (get_struct l (s.buffer r) offset)
    where
      read : Outcome T → Outcome (T × Store)
      read (done t) = done (t, s)
      read panicked = panicked
      read undefined = undefined
