-- ===== src/Prelude/Outcomes.antt =====
-- What a call of a Rust function comes to: a value, a panic, or an access outside of the memory that
-- the code owns, which the language leaves undefined.

pub data Outcome {ℓ} (A : Type ℓ) : Type ℓ where
  done : A → Outcome A
  panicked : Outcome A
  undefined : Outcome A

infixl 5 ◌>>=◌ ◌>>◌
abbrev pub ◌>>=◌ {ℓ κ} : {A : Type ℓ} {B : Type κ} → Outcome A → (A → Outcome B) → Outcome B
done a >>= f = f a
panicked >>= f = panicked
undefined >>= f = undefined

abbrev pub ◌>>◌ {ℓ} : {B : Type ℓ} → Outcome (Unit {0}) → Outcome B → Outcome B
m >> k = m >>= λ _. k
