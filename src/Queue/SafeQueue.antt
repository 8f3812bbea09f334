-- ===== src/Queue/SafeQueue.antt =====
-- `SafeQueue` of src/queue.rs: a vector under a lock, so that each call is one step.
use water_rs.Prelude.{ℕ, List, [], ◌∷◌, ◌++◌, Option, none, some, length}

pub record SafeQueue {ℓ} (A : Type ℓ) : Type ℓ where
  pub vec : List A

module _ {ℓ} {A : Type ℓ} where
  -- `buf` is not used.
  unfoldable pub new : (buf : ℕ) → SafeQueue A
  new buf = record { vec = [] }

  unfoldable pub put : SafeQueue A → A → SafeQueue A
  put q t = record { vec = q.vec ++ (t ∷ []) }

  get_from : List A → Option A × SafeQueue A
  get_from [] = (none, record { vec = [] })
  get_from (t ∷ rest) = (some t, record { vec = rest })

  unfoldable pub get : SafeQueue A → Option A × SafeQueue A
  unfolding get_from
  get q = get_from q.vec

  unfoldable pub len : SafeQueue A → ℕ
  len q = length q.vec
