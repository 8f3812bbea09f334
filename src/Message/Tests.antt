-- ===== src/Message/Tests.antt =====
-- Runs of the theorems on src/message.rs.
use water_rs.SyncMessage.{Typed}
use water_rs.Prelude.{arith}
use water_rs.Message.Values.{Packs, typeunwrap-new}
use water_rs.Samples.{Point, point_layout, store, store-IsSound}

abbrev point_typed : Typed Point
point_typed = record { layout = point_layout; type_id = 77 }

abbrev point : Point
point = record { x = 1; y = 2 }

typeunwrap-new_example : Packs point_typed point store
typeunwrap-new_example = typeunwrap-new point_typed point store (omega arith) store-IsSound
