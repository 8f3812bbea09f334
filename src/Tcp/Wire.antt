-- ===== src/Tcp/Wire.antt =====
-- How numbers travel on a stream (`write_be_u64` and `read_be_u64` of the standard library, as
-- src/tcp/mod.rs uses them): the high byte first.
use water_rs.Prelude.{
  ℕ, zero, suc, ◌+◌, ◌*◌, ◌/◌, ◌%◌, ◌^◌, ◌<◌, ◌≡◌, refl, ap, List, [], ◌∷◌, ◌++◌, Option, none,
  some, arith, length,
}
use water_rs.RawMessage.{usize_mod}

unfoldable pub be_bytes : ℕ → ℕ → List ℕ
be_bytes zero n = []
be_bytes (suc k) n = ((n / 256 ^ k) % 256) ∷ be_bytes k n

-- The number that the next `k` bytes stand for behind those read so far, and the rest of the stream;
-- `none` where the stream ends before.
unfoldable pub read_be : ℕ → ℕ → List ℕ → Option (ℕ × List ℕ)
read_be zero acc bs = some (acc, bs)
read_be (suc k) acc [] = none
read_be (suc k) acc (b ∷ bs) = read_be k (acc * 256 + b) bs

pub length-be_bytes : (k n : ℕ) → length (be_bytes k n) ≡ k
unfolding be_bytes
length-be_bytes zero n = refl
length-be_bytes (suc k) n = ap suc (length-be_bytes k n)

-- A 64-bit number is read back as it was written, and the rest of the stream is left.
pub read_be-be_bytes :
    (n : ℕ) (rest : List ℕ) → n < usize_mod → read_be 8 0 (be_bytes 8 n ++ rest) ≡ some (n, rest)
unfolding read_be be_bytes
read_be-be_bytes n rest h = ap (λ m. some (m, rest)) (omega arith)
