-- ===== src/RawMessage/Memory.antt =====
-- The memory primitives that src/rawmessage.rs takes from the language: a block of bytes that
-- `allocate` returns uninitialised, stores through a pointer, and `copy_memory`.
use water_rs.Prelude.{
  ℕ, zero, suc, ◌+◌, ◌≤◌, ◌<◌, ◌≡◌, refl, ap, ◌⊎◌, List, [], ◌∷◌, ◌++◌, arith, leb, ltb,
  if◌then◌else◌, length, take, drop, length-append, length-drop, set, Outcome, done, undefined,
  append-nil, length-take,
}

-- `n` bytes from offset `i` on: `mem` says what happens to stand there.
pub allocate : (ℕ → ℕ) → ℕ → ℕ → List ℕ
allocate mem i zero = []
allocate mem i (suc n) = mem i ∷ allocate mem (suc i) n

pub length-allocate : (mem : ℕ → ℕ) (i n : ℕ) → length (allocate mem i n) ≡ n
unfolding allocate
length-allocate mem i zero = refl
length-allocate mem i (suc n) = ap suc (length-allocate mem (suc i) n)

pub allocate-none : (mem : ℕ → ℕ) (i : ℕ) → allocate mem i 0 ≡ []
unfolding allocate
allocate-none mem i = refl

pub allocate_one : (mem : ℕ → ℕ) → allocate mem 0 1 ≡ mem 0 ∷ []
unfolding allocate
allocate_one mem = refl

-- The block with `bs` written over it from `off` on.
pub splice : List ℕ → ℕ → List ℕ → List ℕ
splice xs zero bs = bs ++ drop (length bs) xs
splice [] (suc off) bs = []
splice (x ∷ xs) (suc off) bs = x ∷ splice xs off bs

-- The `n` bytes at `off`.
abbrev pub slice : List ℕ → ℕ → ℕ → List ℕ
slice xs off n = take n (drop off xs)

-- `copy_memory(dst + off, src, n)`.
pub copy_memory : List ℕ → ℕ → List ℕ → ℕ → Outcome (List ℕ)
copy_memory dst off src n =
    if leb (off + n) (length dst)
    then (if leb n (length src) then done (splice dst off (take n src)) else undefined)
    else undefined

-- `*(dst + off) = v`.
pub poke : List ℕ → ℕ → ℕ → Outcome (List ℕ)
poke dst off v = if ltb off (length dst) then done (set dst off v) else undefined

pub length-splice :
    (xs : List ℕ) (off : ℕ) (bs : List ℕ)
    → off + length bs ≤ length xs
    → length (splice xs off bs) ≡ length xs
unfolding splice
length-splice xs zero bs h =
    omega (arith, length-append bs (drop (length bs) xs), length-drop (length bs) xs)
length-splice [] (suc off) bs h = refl
length-splice (x ∷ xs) (suc off) bs h = ap suc (length-splice xs off bs (omega arith))

pub take-append {ℓ} : {A : Type ℓ} (xs ys : List A) → take (length xs) (xs ++ ys) ≡ xs
take-append [] ys = refl
take-append (x ∷ xs) ys = ap (◌∷◌ x) (take-append xs ys)

pub take-length {ℓ} : {A : Type ℓ} (xs : List A) (n : ℕ) → length xs ≤ n → take n xs ≡ xs
take-length [] zero h = refl
take-length [] (suc n) h = refl
take-length (x ∷ xs) zero h = absurd (omega arith)
take-length (x ∷ xs) (suc n) h = ap (◌∷◌ x) (take-length xs n (omega arith))

-- What was written is read back.
pub slice-splice_self :
    (xs : List ℕ) (off : ℕ) (bs : List ℕ)
    → off ≤ length xs
    → slice (splice xs off bs) off (length bs) ≡ bs
unfolding splice
slice-splice_self xs zero bs h = take-append bs (drop (length bs) xs)
slice-splice_self [] (suc off) bs h = absurd (omega arith)
slice-splice_self (x ∷ xs) (suc off) bs h = slice-splice_self xs off bs (omega arith)

drop-length {ℓ} : {A : Type ℓ} (xs : List A) (j : ℕ) → length xs ≤ j → drop j xs ≡ []
drop-length [] zero h = refl
drop-length [] (suc j) h = refl
drop-length (x ∷ xs) zero h = absurd (omega arith)
drop-length (x ∷ xs) (suc j) h = drop-length xs j (omega arith)

drop-append-drop :
    (bs xs : List ℕ) (j : ℕ) → length bs ≤ j → drop j (bs ++ drop (length bs) xs) ≡ drop j xs
drop-append-drop [] xs j h = refl
drop-append-drop (b ∷ bs) xs zero h = absurd (omega arith)
drop-append-drop (b ∷ bs) [] (suc j) h = rw append-nil (drop-length bs j (omega arith))
drop-append-drop (b ∷ bs) (x ∷ xs) (suc j) h = drop-append-drop bs xs j (omega arith)

-- A region behind the write is as it was.
pub drop-splice_above :
    (xs : List ℕ) (off : ℕ) (bs : List ℕ) (j : ℕ)
    → off + length bs ≤ j
    → drop j (splice xs off bs) ≡ drop j xs
unfolding splice
drop-splice_above xs zero bs j h = drop-append-drop bs xs j (omega arith)
drop-splice_above [] (suc off) bs j h = refl
drop-splice_above (x ∷ xs) (suc off) bs zero h = absurd (omega arith)
drop-splice_above (x ∷ xs) (suc off) bs (suc j) h = drop-splice_above xs off bs j (omega arith)

-- A region before the write is as it was.
pub slice-splice_below :
    (xs : List ℕ) (off : ℕ) (bs : List ℕ) (j n : ℕ)
    → j + n ≤ off
    → slice (splice xs off bs) j n ≡ slice xs j n
unfolding splice
slice-splice_below xs zero bs zero zero h = refl
slice-splice_below xs zero bs zero (suc n) h = absurd (omega arith)
slice-splice_below xs zero bs (suc j) n h = absurd (omega arith)
slice-splice_below [] (suc off) bs j n h = refl
slice-splice_below (x ∷ xs) (suc off) bs zero zero h = refl
slice-splice_below (x ∷ xs) (suc off) bs zero (suc n) h =
    ap (◌∷◌ x) (slice-splice_below xs off bs zero n (omega arith))
slice-splice_below (x ∷ xs) (suc off) bs (suc j) n h =
    slice-splice_below xs off bs j n (omega arith)

pub length-slice : (xs : List ℕ) (off n : ℕ) → off + n ≤ length xs → length (slice xs off n) ≡ n
length-slice xs off n h = omega (arith, length-take n (drop off xs), length-drop off xs)

pub copy_memory-done :
    (dst src : List ℕ) (off n : ℕ)
    → off + n ≤ length dst
    → n ≤ length src
    → copy_memory dst off src n ≡ done (splice dst off (take n src))
unfolding copy_memory
copy_memory-done dst src off n h k = ground arith

pub splice-set :
    (xs : List ℕ) (off b : ℕ) (bs : List ℕ)
    → off < length xs
    → splice (set xs off b) (suc off) bs ≡ splice xs off (b ∷ bs)
unfolding splice
splice-set [] off b bs h = absurd (omega arith)
splice-set (x ∷ xs) zero b bs h = refl
splice-set (x ∷ xs) (suc off) b bs h = ap (◌∷◌ x) (splice-set xs off b bs (omega arith))

pub splice-nil : (xs : List ℕ) (off : ℕ) → splice xs off [] ≡ xs
unfolding splice
splice-nil xs zero = refl
splice-nil [] (suc off) = refl
splice-nil (x ∷ xs) (suc off) = ap (◌∷◌ x) (splice-nil xs off)

pub poke-done : (xs : List ℕ) (off b : ℕ) → off < length xs → poke xs off b ≡ done (set xs off b)
unfolding poke
poke-done xs off b h = ground arith

pub splice-whole : (xs bs : List ℕ) → length xs ≤ length bs → splice xs 0 bs ≡ bs
unfolding splice
splice-whole xs bs h = rw (drop-length xs (length bs) h, append-nil)

-- A copy of a whole block.
pub copy_memory-whole :
    (dst src : List ℕ) (n : ℕ)
    → length dst ≡ n
    → length src ≡ n
    → copy_memory dst 0 src n ≡ done src
copy_memory-whole dst src n h k = rw (
  copy_memory-done dst src 0 n (omega arith) (omega arith),
  take-length src n (omega arith),
  splice-whole dst src (omega arith),
)

pub copy_memory-undefined :
    (dst src : List ℕ) (off n : ℕ)
    → (length dst < off + n) ⊎ (length src < n)
    → copy_memory dst off src n ≡ undefined
unfolding copy_memory
copy_memory-undefined dst src off n h = ground arith

pub eq-nil_of_length : (bs : List ℕ) → length bs ≡ 0 → bs ≡ []
eq-nil_of_length [] h = refl
eq-nil_of_length (b ∷ bs) h = absurd (omega arith)
