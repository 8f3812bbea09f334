-- ===== src/Queue/RingQueue/Atomic/Slots.antt =====
-- The slots of a ring queue (src/queue.rs) that the two ends work on are different ones, so that what
-- one end knows of its slot stays true when the other writes.
use water_rs.Prelude.{
  ℕ, suc, ◌%◌, ◌<◌, ◌≡◌, refl, sym, ◌∙◌, ◌≢◌, List, [], ◌∷◌, ◌++◌, length, arith,
}
use water_rs.Store.{update}
use water_rs.Store.Alias.{update_ne}
use water_rs.Queue.RingQueue.{SizedRingQueue, SizedRingQueueItem}
use water_rs.Queue.RingQueue.Order.{Holds}
use water_rs.Queue.RingQueue.Slots.{step-mod-ne}
use water_rs.Queue.RingQueue.Atomic.{Put, Get}
use water_rs.Queue.RingQueue.Atomic.View.{Writes, Reads, IsPutting, IsGetting}

module _ {A : Type 0} where
  pub free_slot :
      (v : SizedRingQueue A) (xs : List A)
      → Holds v xs
      → length xs < v.size
      → (v.block (v.tx % v.size)).state ≡ 0
  free_slot v xs h room = rw h.tx (h.free (length xs) (omega arith) room)

  ends_apart :
      (v : SizedRingQueue A) (x : A) (xs : List A)
      → Holds v (x ∷ xs)
      → length (x ∷ xs) < v.size
      → v.tx % v.size ≢ v.rx % v.size
  ends_apart v x xs h room = rw h.tx (step-mod-ne v.size v.rx (suc (length xs)) (omega arith) room)

  pub not_read :
      (v : SizedRingQueue A) (xs : List A) (block : ℕ → SizedRingQueueItem A) (c : Get A)
      → Holds v xs
      → length xs < v.size
      → IsGetting block (v.rx % v.size) xs c
      → ¬ Reads c (v.tx % v.size)
  not_read v xs block (Get.reading pos) h room (e, (x, rest, es, eb)) r =
      ends_apart v x rest (rw es at h) (rw es at room) (sym r ∙ e)
  not_read v xs block (Get.clearing pos t) h room (e, (x, rest, es, eb, et)) r =
      ends_apart v x rest (rw es at h) (rw es at room) (sym r ∙ e)
  not_read v xs block Get.idle h room g r = r
  not_read v xs block Get.entering h room g r = r
  not_read v xs block (Get.taking pos) h room g r = r
  not_read v xs block Get.undoing h room g r = r
  not_read v xs block (Get.uncounting t) h room g r = r
  not_read v xs block (Get.returned t) h room g r = r

  pub not_written :
      (v : SizedRingQueue A) (x : A) (xs : List A) (block : ℕ → SizedRingQueueItem A) (p : Put A)
      → Holds v (x ∷ xs)
      → IsPutting block v.size (v.tx % v.size) (x ∷ xs) p
      → ¬ Writes p (v.rx % v.size)
  not_written v x xs block Put.idle h g r = r
  not_written v x xs block (Put.entering t) h g r = r
  not_written v x xs block (Put.claiming pos t) h (room, e, st) r =
      ends_apart v x xs h room (sym e ∙ r)
  not_written v x xs block (Put.copying pos t) h (room, e, st) r =
      ends_apart v x xs h room (sym e ∙ r)
  not_written v x xs block (Put.storing pos t) h (room, e, st) r =
      ends_apart v x xs h room (sym e ∙ r)
  not_written v x xs block Put.counting h g r = r

  module _ (block : ℕ → SizedRingQueueItem A) (at : ℕ) (item : SizedRingQueueItem A) where
    pub IsGetting-kept :
        (slot : ℕ) (xs : List A) (c : Get A)
        → ¬ Reads c at
        → IsGetting block slot xs c
        → IsGetting (update block at item) slot xs c
    IsGetting-kept slot xs Get.idle n g = g
    IsGetting-kept slot xs Get.entering n g = g
    IsGetting-kept slot xs (Get.taking pos) n g = g
    IsGetting-kept slot xs Get.undoing n g = g
    IsGetting-kept slot xs (Get.reading pos) n (e, (x, rest, es, eb)) =
        (e, (x, rest, es, update_ne block at pos item (λ h. n (sym h)) ∙ eb))
    IsGetting-kept slot xs (Get.clearing pos t) n (e, (x, rest, es, eb, et)) =
        (e, (x, rest, es, update_ne block at pos item (λ h. n (sym h)) ∙ eb, et))
    IsGetting-kept slot xs (Get.uncounting t) n g = g
    IsGetting-kept slot xs (Get.returned t) n g = g

    pub IsPutting-kept :
        (size slot : ℕ) (xs : List A) (p : Put A)
        → ¬ Writes p at
        → IsPutting block size slot xs p
        → IsPutting (update block at item) size slot xs p
    IsPutting-kept size slot xs Put.idle n g = g
    IsPutting-kept size slot xs (Put.entering t) n g = g
    IsPutting-kept size slot xs (Put.claiming pos t) n (room, e, st) =
        (room, e, rw (update_ne block at pos item (λ h. n (sym h))) st)
    IsPutting-kept size slot xs (Put.copying pos t) n (room, e, st) =
        (room, e, rw (update_ne block at pos item (λ h. n (sym h))) st)
    IsPutting-kept size slot xs (Put.storing pos t) n (room, e, st) =
        (room, e, update_ne block at pos item (λ h. n (sym h)) ∙ st)
    IsPutting-kept size slot xs Put.counting n g = g

  pub IsGetting-grown :
      (block : ℕ → SizedRingQueueItem A) (slot : ℕ) (xs : List A) (t : A) (c : Get A)
      → IsGetting block slot xs c
      → IsGetting block slot (xs ++ (t ∷ [])) c
  IsGetting-grown block slot xs t Get.idle g = g
  IsGetting-grown block slot xs t Get.entering g = g
  IsGetting-grown block slot xs t (Get.taking pos) g = g
  IsGetting-grown block slot xs t Get.undoing g = g
  IsGetting-grown block slot xs t (Get.reading pos) (e, (x, rest, es, eb)) =
      (e, (x, rest ++ (t ∷ []), rw es refl, eb))
  IsGetting-grown block slot xs t (Get.clearing pos u) (e, (x, rest, es, eb, et)) =
      (e, (x, rest ++ (t ∷ []), rw es refl, eb, et))
  IsGetting-grown block slot xs t (Get.uncounting u) g = g
  IsGetting-grown block slot xs t (Get.returned u) g = g

  pub IsPutting-shrunk :
      (block : ℕ → SizedRingQueueItem A) (size slot : ℕ) (x : A) (xs : List A) (p : Put A)
      → IsPutting block size slot (x ∷ xs) p
      → IsPutting block size slot xs p
  IsPutting-shrunk block size slot x xs Put.idle g = g
  IsPutting-shrunk block size slot x xs (Put.entering t) g = omega (arith, g)
  IsPutting-shrunk block size slot x xs (Put.claiming pos t) (room, e, st) =
      (omega (arith, room), e, st)
  IsPutting-shrunk block size slot x xs (Put.copying pos t) (room, e, st) =
      (omega (arith, room), e, st)
  IsPutting-shrunk block size slot x xs (Put.storing pos t) (room, e, st) =
      (omega (arith, room), e, st)
  IsPutting-shrunk block size slot x xs Put.counting g = g
