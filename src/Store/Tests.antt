-- ===== src/Store/Tests.antt =====
-- Runs of the theorems on sharing in src/rawmessage.rs.
use water_rs.Prelude.{ℕ, ◌≡◌, ◌≢◌, List, [], ◌∷◌, done, arith}
use water_rs.Store.{Store, IsSound, RawMessage, dup, write_from_slice, as_slice, writestruct, clone}
use water_rs.Store.Numbers.{readstruct, readstruct-writestruct_shared}
use water_rs.Store.Alias.{dup_isolated}
use water_rs.Samples.{store, store-IsSound, point_layout}

dup_isolated_example :
    (d : RawMessage) × (t : Store) × (dup 3 store ≡ done (d, t))
    × IsSound t
    × (as_slice d t ≡ 7 ∷ 8 ∷ 9 ∷ [])
    × ((offset : ℕ) (f : List ℕ) (u : Store)
        → write_from_slice d offset f t ≡ done (tt, u)
        → as_slice 3 u ≡ as_slice 3 store)
    × ((offset : ℕ) (f : List ℕ) (u : Store)
        → write_from_slice 3 offset f t ≡ done (tt, u)
        → as_slice d u ≡ 7 ∷ 8 ∷ 9 ∷ [])
dup_isolated_example = dup_isolated 3 store store-IsSound (omega arith)

readstruct-writestruct_shared_example :
    (u : Store) × (writestruct point_layout 3 1 (record { x = 5; y = 6 }) store ≡ done (tt, u))
    × IsSound u
    × (readstruct point_layout (clone 3) 1 u ≡ done (record { x = 5; y = 6 }, u))
    × ((q : ℕ) → 3 ≢ q → u.buffer q ≡ store.buffer q)
readstruct-writestruct_shared_example =
    readstruct-writestruct_shared point_layout 3 1 (record { x = 5; y = 6 }) store store-IsSound
      (omega arith)
