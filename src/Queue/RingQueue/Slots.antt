-- ===== src/Queue/RingQueue/Slots.antt =====
-- Slots of `SizedRingQueue` (src/queue.rs): positions modulo the number of slots, and lookups in the
-- list that the queue holds.
use water_rs.Prelude.{
  ℕ, zero, suc, ◌+◌, ◌-◌, ◌%◌, ◌≤◌, ◌<◌, ◌≡◌, refl, ◌≢◌, ◌⊎◌, inl, inr, List, [], ◌∷◌, ◌++◌, some,
  arith, length, get_elem?, ap, ◌∙◌, sym,
}
use native.Mathlib.Nat.{mod-add-mod, mod-eq_of_lt, mod-eq-sub-mod, mod-lt}
use native.Mathlib.Decide.{dec_lt}

-- Fewer than `s` steps round a ring of `s` slots do not come back.
pub step-mod-ne : (s a d : ℕ) → 0 < d → d < s → (a + d) % s ≢ a % s
step-mod-ne s a d p q e = elim (dec_lt (a % s + d) s) [
  | yes h ↦ omega (arith, mod-add-mod a s d, mod-eq_of_lt h)
  | no h ↦
      let back : s ≤ a % s + d = omega arith in
      let short : a % s + d - s < s = omega (arith, mod-lt a {m = s} (omega arith)) in
      omega (arith, mod-add-mod a s d, mod-eq-sub-mod back, mod-eq_of_lt short)
]

slots-lt : (s a i j : ℕ) → i < j → j < s → (a + j) % s ≢ (a + i) % s
slots-lt s a i j p q e =
    step-mod-ne s (a + i) (j - i) (omega arith) (omega arith) (ap (λ n. n % s) (omega arith) ∙ e)

pub slots-ne : (s a i j : ℕ) → i < s → j < s → i ≢ j → (a + i) % s ≢ (a + j) % s
slots-ne s a i j p q ne e = elim (dec_lt i j) [
  | yes h ↦ slots-lt s a i j h q (sym e)
  | no h ↦ slots-lt s a j i (omega arith) p e
]

pub get_elem?-lt {ℓ} :
    {A : Type ℓ} (xs : List A) (k : ℕ) (x : A) → get_elem? xs k ≡ some x → k < length xs
get_elem?-lt [] k x e = cc
get_elem?-lt (y ∷ xs) zero x e = omega arith
get_elem?-lt (y ∷ xs) (suc k) x e = omega (arith, get_elem?-lt xs k x e)

pub get_elem?-snoc {ℓ} :
    {A : Type ℓ} (xs : List A) (t : A) (k : ℕ) (x : A)
    → get_elem? (xs ++ (t ∷ [])) k ≡ some x
    → ((get_elem? xs k ≡ some x) ⊎ ((k ≡ length xs) × (t ≡ x)))
get_elem?-snoc [] t zero x e = inr (refl, cc)
get_elem?-snoc [] t (suc k) x e = cc
get_elem?-snoc (y ∷ xs) t zero x e = inl e
get_elem?-snoc (y ∷ xs) t (suc k) x e = elim (get_elem?-snoc xs t k x e) [
  | inl f ↦ inl f
  | inr (f, g) ↦ inr (ap suc f, g)
]
