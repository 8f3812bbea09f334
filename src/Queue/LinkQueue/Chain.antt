-- ===== src/Queue/LinkQueue/Chain.antt =====
-- The list of `InfiniteLinkQueue` (src/queue.rs): the items that wait, linked both ways from the oldest
-- to the newest, and behind them the items to release.
use water_rs.Prelude.{ℕ, suc, ◌≤◌, ◌<◌, ◌≡◌, refl, ◌≢◌, false, List, [], ◌∷◌, ◌++◌, arith, length}
use water_rs.Queue.LinkQueue.{Item}
use water_rs.Queue.LinkQueue.Cells.{Role, linked, apart_rank}

abbrev pub first : List ℕ → ℕ
first [] = 0
first (a ∷ front) = a

abbrev pub last : ℕ → List ℕ → ℕ
last before [] = before
last before (a ∷ front) = last a front

-- An item that waits with value `t`, between two others.
pub record Node {T : Type 0} (heap : ℕ → Item T) (role : ℕ → Role) (low top before a behind : ℕ)
    (t : T) : Type 0 where
  pub rank : ℕ
  pub is_role : role a ≡ linked rank
  pub above : low ≤ rank
  pub under : rank < top
  pub nonnull : a ≢ 0
  pub next : (heap a).next ≡ before
  pub prev : (heap a).prev ≡ behind
  pub claimed : (heap a).claimed ≡ false
  pub needrel : (heap a).needrel ≡ false
  pub payload : (heap a).payload ≡ t

-- The items wait in this order with these values; their ranks grow from `low` to below `top`.
abbrev pub AllWait : {T : Type 0} → (ℕ → Item T) → (ℕ → Role) → ℕ → ℕ → ℕ → List ℕ → List T → Type 0
AllWait heap role low top before [] [] = Unit {0}
AllWait heap role low top before [] (t ∷ ts) = ⊥
AllWait heap role low top before (a ∷ front) [] = ⊥
AllWait heap role low top before (a ∷ front) (t ∷ ts) =
    (n : Node heap role low top before a (first front) t) × AllWait heap role (suc n.rank) top a
      front ts

-- The items to release, along `next`, with smaller and smaller ranks.
abbrev pub Tail : {T : Type 0} → (ℕ → Item T) → (ℕ → Role) → ℕ → ℕ → List ℕ → Type 0
Tail heap role low start [] = start ≡ 0
Tail heap role low start (d ∷ tail) =
    (start ≡ d)
    × (d ≢ 0)
    × (r : ℕ) × (role d ≡ linked r)
    × (r < low)
    × Tail heap role r (heap d).next tail

module _ {T : Type 0} (heap : ℕ → Item T) (role : ℕ → Role) where
  pub length-Tail :
      (low start : ℕ) (tail : List ℕ) → Tail heap role low start tail → length tail ≤ low
  length-Tail low start [] w = omega arith
  length-Tail low start (d ∷ tail) (e, nonnull, r, at, under, w) =
      omega (arith, under, length-Tail r (heap d).next tail w)

  pub last_rank :
      (low top before a : ℕ) (front : List ℕ) (ts : List T)
      → AllWait heap role low top before (a ∷ front) ts
      → (r : ℕ) × (role (last a front) ≡ linked r) × (low ≤ r) × (last a front ≢ 0) × (r < top)
  last_rank low top before a front [] w = absurd w
  last_rank low top before a [] (t ∷ ts) (n, w) = (n.rank, n.is_role, n.above, n.nonnull, n.under)
  last_rank low top before a (c ∷ front) (t ∷ ts) (n, w) =
      let (r, e, above, nonnull, under) = last_rank (suc n.rank) top a c front ts w in
      (r, e, omega (arith, above, n.above), nonnull, under)

module _ {T : Type 0} (heap heap' : ℕ → Item T) (role role' : ℕ → Role) where
  -- The second memory has the same item in the list, at the same rank.
  abbrev pub Keeps : ℕ → ℕ → Type 0
  Keeps a r = (heap' a ≡ heap a) × (role' a ≡ linked r)

  Node-kept :
      (low top top' before a behind : ℕ) (t : T)
      → top ≤ top'
      → (n : Node heap role low top before a behind t) → Keeps a n.rank
      → Node heap' role' low top' before a behind t
  Node-kept low top top' before a behind t h n (same, at_rank) = record {
    rank = n.rank;
    is_role = at_rank;
    above = n.above;
    under = omega (arith, n.under);
    nonnull = n.nonnull;
    next = rw same n.next;
    prev = rw same n.prev;
    claimed = rw same n.claimed;
    needrel = rw same n.needrel;
    payload = rw same n.payload;
  }

  pub AllWait-kept :
      (low top top' before : ℕ) (front : List ℕ) (ts : List T)
      → top ≤ top'
      → ((a r : ℕ) → role a ≡ linked r → low ≤ r → Keeps a r)
      → AllWait heap role low top before front ts
      → AllWait heap' role' low top' before front ts
  unfolding Node-kept
  AllWait-kept low top top' before [] [] h keeps w = tt
  AllWait-kept low top top' before [] (t ∷ ts) h keeps w = w
  AllWait-kept low top top' before (a ∷ front) [] h keeps w = w
  AllWait-kept low top top' before (a ∷ front) (t ∷ ts) h keeps (n, w) = (
    Node-kept low top top' before a (first front) t h n (keeps a n.rank n.is_role n.above),
    AllWait-kept (suc n.rank) top top' a front ts h
        (λ b r e above. keeps b r e (omega (arith, above, n.above))) w,
  )

  pub Tail-kept :
      (low low' start : ℕ) (tail : List ℕ)
      → low ≤ low'
      → ((a r : ℕ) → role a ≡ linked r → r < low → Keeps a r)
      → Tail heap role low start tail
      → Tail heap' role' low' start tail
  Tail-kept low low' start [] h keeps w = w
  Tail-kept low low' start (d ∷ tail) h keeps (e, nonnull, r, at, under, w) =
      let (same, at_rank) = keeps d r at under in
      (
        e,
        nonnull,
        r,
        at_rank,
        omega (arith, under),
        rw same (
            Tail-kept r r (heap d).next tail (omega arith)
              (λ b p u below. keeps b p u (omega (arith, below, under))) w),
      )

  -- A new item behind the last one, which gets its link.
  pub AllWait-append :
      (low top before x : ℕ) (t : T) (front : List ℕ) (ts : List T)
      → low ≤ top
      → Node heap' role' top (suc top) (last before front) x 0 t
      → heap' (last before front) ≡ record (heap (last before front)) { prev = x }
      → ((b r : ℕ) → role b ≡ linked r → b ≢ last before front → heap' b ≡ heap b)
      → ((b r : ℕ) → role b ≡ linked r → role' b ≡ linked r)
      → AllWait heap role low top before front ts
      → AllWait heap' role' low (suc top) before (front ++ (x ∷ [])) (ts ++ (t ∷ []))
  unfolding Node-kept
  AllWait-append low top before x t [] [] h new relinked others roles w = (
    record {
      rank = new.rank;
      is_role = new.is_role;
      above = omega (arith, new.above);
      under = new.under;
      nonnull = new.nonnull;
      next = new.next;
      prev = new.prev;
      claimed = new.claimed;
      needrel = new.needrel;
      payload = new.payload;
    },
    tt,
  )
  AllWait-append low top before x t [] (t' ∷ ts) h new relinked others roles w = absurd w
  AllWait-append low top before x t (a ∷ front) [] h new relinked others roles w = absurd w
  AllWait-append low top before x t (a ∷ []) (t' ∷ ts) h new relinked others roles (n, w) = (
    record {
      rank = n.rank;
      is_role = roles a n.rank n.is_role;
      above = n.above;
      under = omega (arith, n.under);
      nonnull = n.nonnull;
      next = rw relinked n.next;
      prev = rw relinked refl;
      claimed = rw relinked n.claimed;
      needrel = rw relinked n.needrel;
      payload = rw relinked n.payload;
    },
    AllWait-append (suc n.rank) top a x t [] ts n.under new relinked others roles w,
  )
  AllWait-append low top before x t (a ∷ c ∷ front) (t' ∷ ts) h new relinked others roles (n, w) =
      let (r, e, above, nonnull, under) = last_rank heap role (suc n.rank) top a c front ts w in
      (
        Node-kept low top (suc top) before a c t' (omega arith) n (
          others a n.rank n.is_role (apart_rank role a _ n.rank r n.is_role e above),
          roles a n.rank n.is_role,
        ),
        AllWait-append (suc n.rank) top a x t (c ∷ front) ts n.under new relinked others roles w,
      )
