-- ===== src/Queue/RingQueue/Atomic/Runs.antt =====
-- Runs of a sender and a receiver on one ring queue (src/queue.rs), their steps in any order.
use water_rs.Prelude.{
  ℕ, suc, ◌^◌, ◌<◌, ◌≤◌, ◌≡◌, refl, sym, ap, ◌∙◌, List, [], ◌∷◌, ◌++◌, some, length, length-append,
  arith, append-nil, append_assoc,
}
use water_rs.RawMessage.{usize_mod}
use water_rs.Queue.RingQueue.{SizedRingQueue, new}
use water_rs.Queue.PointerCache.Slots.{pow_pos}
use water_rs.Queue.RingQueue.Atomic.{Put, Get, Ends, Step, Reach, start}
use water_rs.Queue.RingQueue.Atomic.View.{IsView, to_uncount, offered, in_hand}
use water_rs.Queue.RingQueue.Atomic.Puts.{put_step-IsView}
use water_rs.Queue.RingQueue.Atomic.Gets.{get_step-IsView}

module _ {A : Type 0} where
  sends_more : (s u : Ends A) → Step s u → length s.sent ≤ length u.sent
  sends_more s u (Step.calls_put t e room) = omega (arith, length-append s.sent (t ∷ []))
  sends_more s u Step.puts = omega arith
  sends_more s u (Step.calls_get e) = omega arith
  sends_more s u Step.gets = omega arith
  sends_more s u (Step.returns t e) = omega arith

  uncounted : (c : Get A) → to_uncount c ≤ 1
  uncounted Get.idle = omega arith
  uncounted Get.entering = omega arith
  uncounted (Get.taking pos) = omega arith
  uncounted Get.undoing = omega arith
  uncounted (Get.reading pos) = omega arith
  uncounted (Get.clearing pos t) = omega arith
  uncounted (Get.uncounting t) = omega arith
  uncounted (Get.returned t) = omega arith

  put_called :
      (q : SizedRingQueue A) (p : Put A) (c : Get A) (sent got : List A) (t : A)
      (v : SizedRingQueue A) (xs : List A)
      → p ≡ Put.idle
      → suc (length sent) < usize_mod
      → q.len < q.size
      → IsView (record { q = q; producer = p; consumer = c; sent = sent; got = got }) v xs
      → IsView
          (record {
            q = q;
            producer = Put.entering t;
            consumer = c;
            sent = sent ++ (t ∷ []);
            got = got;
          })
          v
          xs
  put_called q p c sent got t v xs e bound room w0 =
      let w = rw e at w0 in
      record {
        held = w.held;
        size = w.size;
        tx = w.tx;
        rx = w.rx;
        numbered = omega (arith, w.numbered, length-append sent (t ∷ []));
        len_small = w.len_small;
        len = w.len;
        agree = w.agree;
        putting = omega (arith, w.len, w.held.len, w.held.tx, w.size, w.numbered, uncounted c);
        getting = w.getting;
        sent =
            rw (w.sent, append-nil xs)
              (append_assoc got _ (t ∷ [])
                ∙ ap (λ ys. got ++ ys) (append_assoc (in_hand c) xs (t ∷ [])));
      }

  get_called :
      (q : SizedRingQueue A) (p : Put A) (c : Get A) (sent got : List A) (v : SizedRingQueue A)
      (xs : List A)
      → c ≡ Get.idle
      → IsView (record { q = q; producer = p; consumer = c; sent = sent; got = got }) v xs
      → IsView
          (record { q = q; producer = p; consumer = Get.entering; sent = sent; got = got })
          v
          xs
  get_called q p c sent got v xs e w0 =
      let w = rw e at w0 in
      record {
        held = w.held;
        size = w.size;
        tx = w.tx;
        rx = w.rx;
        numbered = w.numbered;
        len_small = w.len_small;
        len = w.len;
        agree = w.agree;
        putting = w.putting;
        getting = tt;
        sent = w.sent;
      }

  get_returned :
      (q : SizedRingQueue A) (p : Put A) (c : Get A) (sent got : List A) (t : A)
      (v : SizedRingQueue A) (xs : List A)
      → c ≡ Get.returned (some t)
      → IsView (record { q = q; producer = p; consumer = c; sent = sent; got = got }) v xs
      → IsView
          (record { q = q; producer = p; consumer = Get.idle; sent = sent; got = got ++ (t ∷ []) })
          v
          xs
  get_returned q p c sent got t v xs e w0 =
      let w = rw e at w0 in
      record {
        held = w.held;
        size = w.size;
        tx = w.tx;
        rx = w.rx;
        numbered = w.numbered;
        len_small = w.len_small;
        len = w.len;
        agree = w.agree;
        putting = w.putting;
        getting = tt;
        sent = w.sent ∙ sym (append_assoc got (t ∷ []) (xs ++ offered p));
      }

  Step-IsView :
      (s u : Ends A) (v : SizedRingQueue A) (xs : List A)
      → suc (length s.sent) < usize_mod
      → IsView s v xs
      → Step s u
      → (v' : SizedRingQueue A) × (xs' : List A) × IsView u v' xs'
  Step-IsView s u v xs bound w (Step.calls_put t e room) =
      (v, xs, put_called s.q s.producer s.consumer s.sent s.got t v xs e bound room w)
  Step-IsView s u v xs bound w Step.puts =
      put_step-IsView s.q s.producer s.consumer s.sent s.got v xs (omega (arith, bound)) w
  Step-IsView s u v xs bound w (Step.calls_get e) =
      (v, xs, get_called s.q s.producer s.consumer s.sent s.got v xs e w)
  Step-IsView s u v xs bound w Step.gets =
      get_step-IsView s.q s.producer s.consumer s.sent s.got v xs bound w
  Step-IsView s u v xs bound w (Step.returns t e) =
      (v, xs, get_returned s.q s.producer s.consumer s.sent s.got t v xs e w)

  start-IsView : (bsize : ℕ) → 2 ^ bsize < usize_mod → IsView {A = A} (start bsize) (new bsize) []
  unfolding new
  start-IsView bsize small = record {
    held = record {
      sized = pow_pos bsize;
      fits = omega arith;
      small = small;
      tx = refl;
      len = refl;
      full = λ k x e. cc;
      free = λ k a b. refl;
    };
    size = refl;
    tx = refl;
    rx = refl;
    numbered = refl;
    len_small = omega arith;
    len = refl;
    agree = λ p np nc. refl;
    putting = tt;
    getting = tt;
    sent = refl;
  }

  pub Reach-IsView :
      (bsize : ℕ) (s : Ends A)
      → 2 ^ bsize < usize_mod
      → Reach (start bsize) s
      → suc (length s.sent) < usize_mod
      → (v : SizedRingQueue A) × (xs : List A) × IsView s v xs
  Reach-IsView bsize s small Reach.here bound = (new bsize, [], start-IsView bsize small)
  Reach-IsView bsize s small (Reach.later {t = t} before step) bound =
      let sooner : suc (length t.sent) < usize_mod = omega (arith, bound, sends_more t s step) in
      let (v, xs, w) = Reach-IsView bsize t small before sooner in
      Step-IsView t s v xs sooner w step
