-- ===== src/Tcp/Ends.antt =====
-- The loop of `thread_rx` (src/tcp/mod.rs) ends with its stream: every round takes bytes off it.
use water_rs.Prelude.{
  ℕ, zero, suc, ◌+◌, ◌*◌, ◌≤◌, ◌<◌, ◌≡◌, refl, ◌⊎◌, inl, inr, List, [], ◌∷◌, Option, some, Outcome,
  done, panicked, undefined, arith, drop, length, length-drop, Option-cases, ◌-◌, ◌%◌,
}
use water_rs.RawMessage.{usize_mod}
use water_rs.Store.{Store, M, and_then, pure, new as new_rawmessage, write_from_slice}
use water_rs.Message
use water_rs.Message.{Message}
use water_rs.Net.{Net, endpoint_sendx}
use water_rs.Tcp.{
  Machine, getok, read_message, read_at_least, checked_capacity, checked_type, Which, negotiated,
  rx_loop, thread_rx,
}
use water_rs.Tcp.Wire.{read_be}

read_be-shorter :
    (k acc : ℕ) (bs : List ℕ) (n : ℕ) (rest : List ℕ)
    → read_be k acc bs ≡ some (n, rest)
    → length rest + k ≡ length bs
unfolding read_be
read_be-shorter zero acc bs n rest e = ground arith
read_be-shorter (suc k) acc [] n rest e = cc
read_be-shorter (suc k) acc (b ∷ bs) n rest e =
    omega (arith, read_be-shorter k (acc * 256 + b) bs n rest e)

-- What is left of the stream is at most `n` bytes.
abbrev Leaves : ℕ → Outcome ((Message × List ℕ) × Store) → Type 0
Leaves n o = (m : Message) (rest : List ℕ) (t : Store) → o ≡ done ((m, rest), t) → length rest ≤ n

and_then-Leaves :
    {A : Type 0} (n : ℕ) (o : Outcome (A × Store)) (f : A → M (Message × List ℕ))
    → ((a : A) (t : Store) → Leaves n (f a t))
    → Leaves n (and_then o f)
and_then-Leaves n (done (a, t')) f h m rest t e = h a t' m rest t e
and_then-Leaves n panicked f h m rest t e = cc
and_then-Leaves n undefined f h m rest t e = cc

done-Leaves :
    (n : ℕ) (m : Message) (rest : List ℕ) (t : Store)
    → length rest ≤ n
    → Leaves n (done ((m, rest), t))
done-Leaves n m rest t h m' rest' t' e = let same : rest ≡ rest' = cc in rw (← same) h

read-Leaves :
    (k : ℕ) (bs : List ℕ) (n : ℕ) (f : ℕ × List ℕ → M (Message × List ℕ)) (s : Store)
    → length bs ≤ n
    → ((v : ℕ) (rest : List ℕ) → length rest ≤ n → Leaves n (f (v, rest) s))
    → Leaves n (and_then (getok (read_be k 0 bs) s) f)
unfolding getok
read-Leaves k bs n f s short h m rest t = elim (Option-cases (read_be k 0 bs)) [
  | inl none_left ↦ rw none_left (λ e. cc)
  | inr ((v, bs'), e) ↦ rw e (h v bs' (omega (arith, read_be-shorter k 0 bs v bs' e)) m rest t)
]

-- What the header leaves of the size.
abbrev left : ℕ → ℕ
left size = (size + usize_mod - (1 + 8 * 4)) % usize_mod

read_message-Leaves :
    (machine : Machine) (size : ℕ) (bs : List ℕ) (s : Store)
    → Leaves (length bs) (read_message machine size bs s)
unfolding read_message
read_message-Leaves machine size bs s = read-Leaves 1 bs (length bs) _ s (omega arith) λ v1 s1 h1.
    read-Leaves 8 s1 (length bs) _ s h1 λ v2 s2 h2. read-Leaves 8 s2 (length bs) _ s h2 λ v3 s3 h3.
      read-Leaves 8 s3 (length bs) _ s h3 λ v4 s4 h4.
        read-Leaves 8 s4 (length bs) _ s h4 λ v5 s5 h5.
          and_then-Leaves (length bs) (checked_capacity machine _ s) _ λ u t1.
            and_then-Leaves (length bs) (checked_type v1 t1) _ λ u t2.
              and_then-Leaves (length bs) (new_rawmessage _ t2) _ λ rmsg t3.
                and_then-Leaves (length bs)
                  (write_from_slice rmsg 0 (read_at_least machine (left size) s5) t3) _
                  λ u t4.
                    done-Leaves (length bs)
                      (record (Message.new_fromraw rmsg) {
                        dstsid = v4;
                        dsteid = v5;
                        srcsid = v2;
                        srceid = v3;
                      })
                      (drop (left size) s5) t4 (omega (arith, length-drop (left size) s5))

-- The thread ends: it panics, or leaves the bytes of a message, or returns.
abbrev pub Ends : Outcome (Option Net × Store) → Type 0
Ends o = (o ≡ panicked) ⊎ (o ≡ undefined) ⊎ ((net : Net) × (t : Store) × (o ≡ done (some net, t)))

and_then-Ends :
    {A : Type 0} (o : Outcome (A × Store)) (f : A → M (Option Net))
    → ((a : A) (t : Store) → o ≡ done (a, t) → Ends (f a t))
    → Ends (and_then o f)
and_then-Ends (done (a, t)) f h = h a t refl
and_then-Ends panicked f h = inl refl
and_then-Ends undefined f h = inr (inl refl)

rx_loop-Ends :
    (fuel : ℕ) (machine : Machine) (stream : List ℕ) (net : Net) (e : ℕ) (s : Store)
    → length stream < fuel
    → Ends (rx_loop fuel machine stream net e s)
unfolding rx_loop
rx_loop-Ends zero machine stream net e s h = absurd (omega arith)
rx_loop-Ends (suc fuel) machine stream net e s h = elim (Option-cases (read_be 8 0 stream)) [
  | inl over ↦ rw (over, rx_loop) (inr (inr (net, s, refl)))
  | inr ((size, rest), more) ↦
      rw (more, rx_loop)
        (and_then-Ends (read_message machine size rest s) _ λ (msg, rest') t got.
          and_then-Ends (Message.clone msg t) _ λ given t' e1.
            and_then-Ends (endpoint_sendx net e given t') _ λ (net', n) t'' e2.
              rx_loop-Ends fuel machine rest' net' e t'' (
                omega (
                  arith,
                  read_be-shorter 8 0 stream size rest more,
                  read_message-Leaves machine size rest s msg rest' t got,
                )))
]

-- The same with the bridge, which has been told of the other side.
abbrev pub EndsWith : Which → Outcome ((Which × Option Net) × Store) → Type 0
EndsWith which o =
    (o ≡ panicked)
    ⊎ (o ≡ undefined)
    ⊎ ((net : Net) × (t : Store) × (o ≡ done ((which, some net), t)))

with_bridge :
    (which : Which) (o : Outcome (Option Net × Store))
    → Ends o
    → EndsWith which (and_then o (λ left. pure (which, left)))
with_bridge which o (inl e) = rw e (inl refl)
with_bridge which o (inr (inl e)) = rw e (inr (inl refl))
with_bridge which o (inr (inr (net, t, e))) = rw e (inr (inr (net, t, refl)))

-- Whatever comes in, `thread_rx` does not read for ever: on a stream that ends it panics, leaves the
-- memory of a message, or returns with the bridge negotiated.
pub thread_rx-EndsWith :
    (machine : Machine) (which : Which) (stream : List ℕ) (net : Net) (e : ℕ) (s : Store)
    → EndsWith (negotiated which) (thread_rx machine which stream net e s)
unfolding thread_rx getok
thread_rx-EndsWith machine which stream net e s = elim (Option-cases (read_be 8 0 stream)) [
  | inl over ↦ rw over (inl refl)
  | inr ((rsid, rest), more) ↦ rw more (
      with_bridge (negotiated which) _
        (rx_loop-Ends (suc (length rest)) machine rest _ e s (omega arith)))
]
