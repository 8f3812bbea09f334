-- ===== src/Tcp/Roundtrip.antt =====
-- What one side of a bridge writes, the other side reads (src/tcp/mod.rs).
use water_rs.Prelude.{
  ℕ, suc, ◌+◌, ◌*◌, ◌-◌, ◌%◌, ◌≤◌, ◌<◌, ◌≡◌, refl, ap, ◌∙◌, false, List, [], ◌∷◌, ◌++◌, some, done,
  arith, drop, length, append-nil, ltb,
}
use water_rs.RawMessage.{usize_mod, IsValid, new, as_slice as bytes_of}
use water_rs.RawMessage.Access.{as_slice_full}
use water_rs.RawMessage.Memory.{allocate-none, take-append}
use water_rs.RawMessage.Fill.{write_from_slice-new, length-as_slice}
use water_rs.Store.{Store, IsSound, RawMessage, len, as_slice, update}
use water_rs.Store.Alias.{update_self, update-update, update-IsSound}
use water_rs.Message
use water_rs.Message.{Message, MessagePayload}
use water_rs.Tcp.{Machine, frame, read_message, read_at_least}
use water_rs.Tcp.Wire.{be_bytes, read_be, read_be-be_bytes}

-- The addresses are 64-bit numbers.
pub record IsAddressed (msg : Message) : Type 0 where
  pub srcsid : msg.srcsid < usize_mod
  pub srceid : msg.srceid < usize_mod
  pub dstsid : msg.dstsid < usize_mod
  pub dsteid : msg.dsteid < usize_mod

-- What the receiver makes of the message: its bytes in a new buffer, and no way back to the sender.
abbrev pub arrived : Message → Store → Message
arrived msg t = record msg { canloop = false; payload = MessagePayload.raw t.next }

abbrev pub filled : Store → List ℕ → Store
filled t f = record t {
  next = suc t.next;
  buffer = update t.buffer t.next (record { len = length f; cap = length f; buf = f });
}

read_at_least_whole :
    (machine : Machine) (f rest : List ℕ) → read_at_least machine (length f) (f ++ rest) ≡ f
unfolding read_at_least
read_at_least_whole machine f rest =
    let none_left : length f - length f ≡ 0 = omega arith in
    rw (take-append f rest, none_left, allocate-none machine.mem (length f)) (append-nil f)

drop-append_length {ℓ} : {A : Type ℓ} (xs ys : List A) → drop (length xs) (xs ++ ys) ≡ ys
drop-append_length [] ys = refl
drop-append_length (x ∷ xs) ys = drop-append_length xs ys

-- The fields behind the size.
abbrev pub body : Message → List ℕ → List ℕ
body msg f =
    1
    ∷ (be_bytes 8 msg.srcsid
        ++ (be_bytes 8 msg.srceid ++ (be_bytes 8 msg.dstsid ++ (be_bytes 8 msg.dsteid ++ f))))

pub read_message-body :
    (machine : Machine) (msg : Message) (f rest : List ℕ) (t : Store)
    → IsAddressed msg
    → 0 < length f
    → 1 + 8 * 4 + length f < usize_mod
    → length f ≤ machine.limit
    → read_message machine (1 + 8 * 4 + length f) (body msg (f ++ rest)) t
      ≡ done ((arrived msg t, rest), filled t f)
unfolding read_message Message.new_fromraw
read_message-body machine msg f rest t a some_byte small fits =
    let size : (1 + 8 * 4 + length f + usize_mod - (1 + 8 * 4)) % usize_mod ≡ length f =
      omega arith in
    let room : ltb machine.limit (length f) ≡ false = ground arith in
    let one : read_be 1 0 (body msg (f ++ rest))
        ≡ some (
          1,
          be_bytes 8 msg.srcsid
              ++ (be_bytes 8 msg.srceid
                  ++ (be_bytes 8 msg.dstsid ++ (be_bytes 8 msg.dsteid ++ (f ++ rest)))),
        ) =
      unfold read_be in refl in
    rw (
      one,
      read_be-be_bytes msg.srcsid _ a.srcsid,
      read_be-be_bytes msg.srceid _ a.srceid,
      read_be-be_bytes msg.dstsid _ a.dstsid,
      read_be-be_bytes msg.dsteid (f ++ rest) a.dsteid,
      size,
      room,
      read_at_least_whole machine f rest,
      update_self t.buffer t.next (new (t.mem t.next) (length f)),
      write_from_slice-new (t.mem t.next) f some_byte (omega arith),
      drop-append_length f rest,
      update-update t.buffer t.next (new (t.mem t.next) (length f))
          (record { len = length f; cap = length f; buf = f }),
    )

-- A raw message of the sender's memory `s` that a bridge can carry.
pub record IsSendable (machine : Machine) (msg : Message) (r : RawMessage) (s : Store)
    : Type 0 where
  pub addressed : IsAddressed msg
  pub some_byte : 0 < len r s
  pub countable : 1 + 8 * 4 + len r s < usize_mod
  pub fits : len r s ≤ machine.limit

-- What `thread_tx` writes for a raw message in sound memory that is not empty, has 64-bit
-- addresses and fits the buffer of the receiver, `thread_rx` reads: it finds the size, takes
-- exactly the bytes of the frame, and makes a message with the same addresses and the same bytes,
-- in a buffer of its own.
pub read_message-frame :
    (machine : Machine) (msg : Message) (r : RawMessage) (s t : Store) (rest : List ℕ)
    → IsSound s
    → IsSound t
    → IsSendable machine msg r s
    → (written : List ℕ) × (size : ℕ) × (behind : List ℕ) × (t' : Store) × (frame msg r s
        ≡ done (written, s))
      × (read_be 8 0 (written ++ rest) ≡ some (size, behind))
      × (read_message machine size behind t ≡ done ((arrived msg t, rest), t'))
      × (as_slice t.next t' ≡ as_slice r s)
      × IsSound t'
unfolding frame len as_slice
read_message-frame machine msg r s t rest v w h =
    let f = as_slice r s in
    let total : length f ≡ (s.buffer r).len = length-as_slice (s.buffer r) (v.buffers r) in
    let size : (1 + 8 * 4 + (s.buffer r).len) % usize_mod ≡ 1 + 8 * 4 + length f =
      omega (arith, h.countable) in
    let full : IsValid (record { len = length f; cap = length f; buf = f }) = record {
      full = refl;
      within = omega arith;
    } in
    (
      be_bytes 8 (1 + 8 * 4 + length f) ++ body msg f,
      1 + 8 * 4 + length f,
      body msg (f ++ rest),
      filled t f,
      rw size,
      (unfold be_bytes in ap (read_be 8 0) refl)
          ∙ read_be-be_bytes (1 + 8 * 4 + length f) (body msg (f ++ rest))
              (omega (arith, h.countable)),
      read_message-body machine msg f rest t h.addressed (omega (arith, h.some_byte))
          (omega (arith, h.countable)) (omega (arith, h.fits)),
      ap bytes_of (update_self t.buffer t.next (record { len = length f; cap = length f; buf = f }))
          ∙ as_slice_full _ full,
      update-IsSound t t.next (suc t.next) _ w full (omega (arith, h.countable)),
    )
