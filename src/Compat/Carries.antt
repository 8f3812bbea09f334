-- ===== src/Compat/Carries.antt =====
-- The values that wait in a channel (src/compat.rs): sync messages of one type, none taken yet.
use water_rs.Prelude.{
  ℕ, suc, ◌≤◌, ◌<◌, ◌≡◌, refl, ap, ◌∙◌, true, false, List, [], ◌∷◌, ◌++◌, done, arith,
}
use water_rs.RawMessage.{Internal, readstructunsaferef}
use water_rs.Store.{Store, update}
use water_rs.Store.Alias.{update_self, update_ne}
use water_rs.SyncMessage.{SyncMessage, Typed}
use water_rs.Message.{Message, MessagePayload}
use water_rs.Message.Values.{packed_message, packed_store}

pub record Carries {T : Type 0} (ty : Typed T) (s : Store) (m : Message) (t : T) : Type 0 where
  pub sync : SyncMessage
  pub is_sync : m.payload ≡ MessagePayload.sync sync
  pub tyid : sync.tyid ≡ ty.type_id
  pub fresh : s.valid sync.valid ≡ true
  pub old_flag : sync.valid < s.next
  pub old_buffer : sync.payload < s.next
  pub value : readstructunsaferef ty.layout (s.buffer sync.payload) 0 ≡ done t

-- The messages carry the values, in order; their flags grow, from `low` on.
abbrev pub AllCarry : {T : Type 0} → Typed T → Store → ℕ → List Message → List T → Type 0
AllCarry ty s low [] [] = Unit {0}
AllCarry ty s low [] (t ∷ ts) = ⊥
AllCarry ty s low (m ∷ ms) [] = ⊥
AllCarry ty s low (m ∷ ms) (t ∷ ts) =
    (c : Carries ty s m t) × (low ≤ c.sync.valid) × AllCarry ty s (suc c.sync.valid) ms ts

module _ {T : Type 0} (ty : Typed T) where
  -- Taking a message with a smaller flag changes nothing for the others.
  pub AllCarry-taken :
      (s : Store) (f low : ℕ) (ms : List Message) (ts : List T)
      → f < low
      → AllCarry ty s low ms ts
      → AllCarry ty (record s { valid = update s.valid f false }) low ms ts
  AllCarry-taken s f low [] [] h a = tt
  AllCarry-taken s f low [] (t ∷ ts) h a = a
  AllCarry-taken s f low (m ∷ ms) [] h a = a
  AllCarry-taken s f low (m ∷ ms) (t ∷ ts) h (c, above, rest) = (
    record {
      sync = c.sync;
      is_sync = c.is_sync;
      tyid = c.tyid;
      fresh = update_ne s.valid f c.sync.valid false (λ e. omega arith) ∙ c.fresh;
      old_flag = c.old_flag;
      old_buffer = c.old_buffer;
      value = c.value;
    },
    above,
    AllCarry-taken s f (suc c.sync.valid) ms ts (omega arith) rest,
  )

  pub AllCarry-lower :
      (s : Store) (low low' : ℕ) (ms : List Message) (ts : List T)
      → low' ≤ low
      → AllCarry ty s low ms ts
      → AllCarry ty s low' ms ts
  AllCarry-lower s low low' [] [] h a = tt
  AllCarry-lower s low low' [] (t ∷ ts) h a = a
  AllCarry-lower s low low' (m ∷ ms) [] h a = a
  AllCarry-lower s low low' (m ∷ ms) (t ∷ ts) h (c, above, rest) = (c, omega arith, rest)

  Carries-packed :
      (s : Store) (j : Internal) (m : Message) (t : T)
      → Carries ty s m t
      → Carries ty (packed_store j s) m t
  Carries-packed s j m t c = record {
    sync = c.sync;
    is_sync = c.is_sync;
    tyid = c.tyid;
    fresh =
        update_ne s.valid (suc s.next) c.sync.valid true (λ e. omega (arith, c.old_flag)) ∙ c.fresh;
    old_flag = omega (arith, c.old_flag);
    old_buffer = omega (arith, c.old_buffer);
    value =
        ap (λ i. readstructunsaferef ty.layout i 0)
          (update_ne s.buffer s.next c.sync.payload j (λ e. omega (arith, c.old_buffer)))
        ∙ c.value;
  }

  Carries-new :
      (s : Store) (j : Internal) (m : Message) (t : T)
      → m.payload ≡ (packed_message ty s).payload
      → readstructunsaferef ty.layout j 0 ≡ done t
      → Carries ty (packed_store j s) m t
  Carries-new s j m t e h = record {
    sync = record { tyid = ty.type_id; valid = suc s.next; payload = s.next };
    is_sync = e;
    tyid = refl;
    fresh = update_self s.valid (suc s.next) true;
    old_flag = omega arith;
    old_buffer = omega arith;
    value = ap (λ i. readstructunsaferef ty.layout i 0) (update_self s.buffer s.next j) ∙ h;
  }

  -- A new message at the end.
  pub AllCarry-packed :
      (s : Store) (j : Internal) (m : Message) (t : T) (low : ℕ) (ms : List Message) (ts : List T)
      → m.payload ≡ (packed_message ty s).payload
      → readstructunsaferef ty.layout j 0 ≡ done t
      → low ≤ suc s.next
      → AllCarry ty s low ms ts
      → AllCarry ty (packed_store j s) low (ms ++ (m ∷ [])) (ts ++ (t ∷ []))
  unfolding Carries-new Carries-packed
  AllCarry-packed s j m t low [] [] e h k a = (Carries-new s j m t e h, k, tt)
  AllCarry-packed s j m t low [] (t' ∷ ts) e h k a = absurd a
  AllCarry-packed s j m t low (m' ∷ ms) [] e h k a = absurd a
  AllCarry-packed s j m t low (m' ∷ ms) (t' ∷ ts) e h k (c, above, rest) = (
    Carries-packed s j m' t' c,
    above,
    AllCarry-packed s j m t (suc c.sync.valid) ms ts e h (omega (arith, c.old_flag)) rest,
  )
