-- ===== src/Store/Alias.antt =====
-- Sharing in src/rawmessage.rs: a clone is the same buffer, a duplicate is one of its own.
use water_rs.Prelude.{
  fun_ext, ℕ, suc, ◌<◌, ◌≡◌, ◌≢◌, List, Outcome, done, arith, ◌==◌, Bool-cases, inl, inr, ap, ◌∙◌,
}
use water_rs.RawMessage.{Internal, IsValid, usize_mod}
use water_rs.RawMessage.{as_slice as bytes_of, write_from_slice as write_internal}
use water_rs.RawMessage.Access.{dup_lem, as_slice_full}
use water_rs.Store.{Store, update, IsSound, RawMessage, modify, dup, as_slice, write_from_slice}

-- The copy that `dup` leaves: its bytes and capacity are the original's, its length is the capacity.
abbrev pub copied : Internal → Internal
copied i = record { len = i.cap; cap = i.cap; buf = i.buf }

abbrev pub after_dup : RawMessage → Store → Store
after_dup r s = record s {
  next = suc s.next;
  buffer = update s.buffer s.next (copied (s.buffer r));
}

pub dup-done : (r : RawMessage) (s : Store) → IsSound s → dup r s ≡ done (s.next, after_dup r s)
unfolding dup
dup-done r s v = rw (dup_lem (s.mem s.next) (s.buffer r) (v.buffers r))

pub update-IsSound :
    (s : Store) (p n : ℕ) (i : Internal)
    → IsSound s
    → IsValid i
    → i.cap < usize_mod
    → IsSound (record s { next = n; buffer = update s.buffer p i })
update-IsSound s p n i v w c = record {
  buffers = λ q. elim (Bool-cases (p == q)) [ inl e ↦ rw e w | inr e ↦ rw e (v.buffers q) ];
  sized = λ q. elim (Bool-cases (p == q)) [ inl e ↦ rw e c | inr e ↦ rw e (v.sized q) ];
}

pub after_dup-IsSound : (r : RawMessage) (s : Store) → IsSound s → IsSound (after_dup r s)
after_dup-IsSound r s v =
    update-IsSound s s.next (suc s.next) (copied (s.buffer r)) v
      (record { full = (v.buffers r).full; within = omega arith }) (v.sized r)

pub update_self {ℓ} : {A : Type ℓ} (f : ℕ → A) (p : ℕ) (v : A) → update f p v p ≡ v
update_self f p v = ground arith

pub update_ne {ℓ} : {A : Type ℓ} (f : ℕ → A) (p q : ℕ) (v : A) → p ≢ q → update f p v q ≡ f q
update_ne f p q v ne = ground arith

pub update_at {ℓ} : {A : Type ℓ} (f : ℕ → A) (p q : ℕ) (v : A) → p ≡ q → update f p v q ≡ v
update_at f p q v e = ground (arith, e)

pub update-update {ℓ} :
    {A : Type ℓ} (f : ℕ → A) (p : ℕ) (v w : A) → update (update f p v) p w ≡ update f p w
update-update f p v w = fun_ext (λ q. ground arith)

modify-other :
    (r p : RawMessage) (f : Internal → Outcome Internal) (s t : Store)
    → modify r f s ≡ done (tt, t)
    → r ≢ p
    → t.buffer p ≡ s.buffer p
unfolding modify
modify-other r p f s t e ne = ground arith

-- In sound memory, a duplicate of a live message holds the bytes of its whole capacity, in a
-- buffer that was free, and the memory stays sound. What is written through one of the two later
-- is not seen through the other.
pub dup_isolated :
    (r : RawMessage) (s : Store)
    → IsSound s
    → r < s.next
    → (d : RawMessage) × (t : Store) × (dup r s ≡ done (d, t))
      × IsSound t
      × (as_slice d t ≡ (s.buffer r).buf)
      × ((offset : ℕ) (f : List ℕ) (u : Store)
          → write_from_slice d offset f t ≡ done (tt, u)
          → as_slice r u ≡ as_slice r s)
      × ((offset : ℕ) (f : List ℕ) (u : Store)
          → write_from_slice r offset f t ≡ done (tt, u)
          → as_slice d u ≡ (s.buffer r).buf)
unfolding as_slice write_from_slice
dup_isolated r s v live = (
  s.next,
  after_dup r s,
  dup-done r s v,
  after_dup-IsSound r s v,
  ap bytes_of (update_self s.buffer s.next (copied (s.buffer r)))
      ∙ as_slice_full (s.buffer r) (v.buffers r),
  λ offset f u e. ap bytes_of (
      modify-other s.next r (λ i. write_internal i offset f) (after_dup r s) u e (omega arith)
      ∙ update_ne s.buffer s.next r (copied (s.buffer r)) (omega arith)),
  λ offset f u e.
      ap bytes_of (
        modify-other r s.next (λ i. write_internal i offset f) (after_dup r s) u e (omega arith)
        ∙ update_self s.buffer s.next (copied (s.buffer r)))
      ∙ as_slice_full (s.buffer r) (v.buffers r),
)
