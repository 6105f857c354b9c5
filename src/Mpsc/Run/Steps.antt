-- ===== src/Mpsc/Run/Steps.antt =====
-- Every step of a producer and of the consumer keeps the invariant.
use u_threads.Base.{
  ℕ, ◌≡◌, refl, sym, ◌∙◌, subst, ◌≢◌, inl, true, false, List, [], ◌∷◌, ◌++◌, arith, update, has,
  Distinct, Apart, has-append, Distinct-append, Apart-comm,
}
use u_threads.Intrusive.Seg.{Seg, last_of, has-last_of}
use u_threads.Mpsc.{
  MpscQueue, Pc, outside, cas, wait_stub, reinsert, relink, wait_next, exchange, link,
}
use u_threads.Mpsc.Linked.{Linked, Linked-last, Linked-link, Linked-store, Linked-exchange}
use u_threads.Mpsc.Run.{Aligned}
use u_threads.Mpsc.Run.Inv.{Knows, Shape, Inv, unmark-even, Aligned-append, Aligned-last}

last_of-append : (x y : ℕ) (xs ys : List ℕ) → last_of x (xs ++ y ∷ ys) ≡ last_of y ys
last_of-append x y [] ys = refl
last_of-append x y (z ∷ xs) ys = last_of-append z y xs ys

Apart-zero :
    (f : ℕ → ℕ) (xs ys : List ℕ)
    → ((a : ℕ) → has a xs ≡ false → f a ≡ 0)
    → Apart ys xs
    → (a : ℕ) → has a ys ≡ true
    → f a ≡ 0
Apart-zero f xs [] quiet apart a i = cc
Apart-zero f xs (y ∷ ys) quiet apart a i =
    ground (arith, quiet y apart.0, Apart-zero f xs ys quiet apart.1 a)

pub exchange-Shape :
    (stub : ℕ) (q : MpscQueue) (v y : ℕ) (xs ys : List ℕ)
    → Shape stub q xs
    → Seg q.next y (y ∷ ys) v
    → Aligned (y ∷ ys)
    → Distinct (y ∷ ys)
    → Apart (y ∷ ys) xs
    → Shape stub (exchange y (last_of y ys) q).0 (xs ++ y ∷ ys)
unfolding exchange
exchange-Shape stub q v y [] ys i s al d apart = absurd i.first
exchange-Shape stub q v y (x ∷ xs) ys i s al d apart =
    let dd = Distinct-append (x ∷ xs) (y ∷ ys) i.distinct d (Apart-comm (y ∷ ys) (x ∷ xs) apart) in
    let z = Apart-zero q.pending (x ∷ xs) (y ∷ ys) i.quiet apart in
    let end = (Aligned-last y ys al).1 in
    let hl = has-last_of x xs in
    record {
      stub_aligned = i.stub_aligned;
      linked =
          subst
            (λ p.
              Linked (update q.next (last_of y ys) 0) (update q.pending p y) ((x ∷ xs) ++ y ∷ ys))
            (sym i.last) (Linked-exchange q.next q.pending v x y xs ys i.linked s dd z);
      first = i.first;
      last = (unmark-even (last_of y ys) end).0 ∙ sym (last_of-append x y xs ys);
      distinct = dd;
      aligned = Aligned-append (x ∷ xs) (y ∷ ys) i.aligned al;
      quiet = λ a o. ground (arith, has-append a (x ∷ xs) (y ∷ ys), i.last, i.quiet a);
    }

exchange-Knows :
    (stub : ℕ) (q : MpscQueue) (y : ℕ) (xs ys : List ℕ) (pc : Pc)
    → Shape stub q xs
    → Aligned (y ∷ ys)
    → has stub (y ∷ ys) ≡ false
    → Knows stub pc q xs
    → Knows stub pc (exchange y (last_of y ys) q).0 (xs ++ y ∷ ys)
unfolding exchange
exchange-Knows stub q y [] ys pc i al out k = absurd i.first
exchange-Knows stub q y (x ∷ xs) ys outside i al out k = (
  ground (arith, has-append stub (x ∷ xs) (y ∷ ys)),
  inl (unmark-even (last_of y ys) (Aligned-last y ys al).1).1,
)
exchange-Knows stub q y (x ∷ xs) ys cas i al out k = (
  ground (arith, has-append stub (x ∷ xs) (y ∷ ys)),
  (unmark-even (last_of y ys) (Aligned-last y ys al).1).1,
  k.2,
)
exchange-Knows stub q y (x ∷ xs) ys wait_stub i al out k = (
  ground (arith, has-append stub (x ∷ xs) (y ∷ ys)),
  (unmark-even (last_of y ys) (Aligned-last y ys al).1).1,
  k.2,
  ground (arith, has-last_of y ys),
)
exchange-Knows stub q y (x ∷ xs) ys reinsert i al out k = (
  ground (arith, has-append stub (x ∷ xs) (y ∷ ys)),
  (unmark-even (last_of y ys) (Aligned-last y ys al).1).1,
)
exchange-Knows stub q y (x ∷ xs) ys (relink p) i al out k =
    let ends = Linked-last q.next q.pending x xs i.linked in
    (
      ground (arith, has-append stub (x ∷ xs) (y ∷ ys)),
      (unmark-even (last_of y ys) (Aligned-last y ys al).1).1,
      k.2,
      ground (arith, i.last, i.stub_aligned.0),
    )
exchange-Knows stub q y (x ∷ xs) ys wait_next i al out k = (
  ground (arith, has-append stub (x ∷ xs) (y ∷ ys)),
  (unmark-even (last_of y ys) (Aligned-last y ys al).1).1,
  k.2,
)

-- A producer's exchange appends its chain to the order.
pub exchange-Inv :
    (stub : ℕ) (q : MpscQueue) (v y : ℕ) (xs ys : List ℕ)
    → Inv stub q xs
    → Seg q.next y (y ∷ ys) v
    → Aligned (y ∷ ys)
    → Distinct (y ∷ ys)
    → has stub (y ∷ ys) ≡ false
    → Apart (y ∷ ys) xs
    → Inv stub (exchange y (last_of y ys) q).0 (xs ++ y ∷ ys)
unfolding exchange
exchange-Inv stub q v y xs ys i s al d out apart = record {
  shape = exchange-Shape stub q v y xs ys i.shape s al d apart;
  knows = exchange-Knows stub q y xs ys q.pc i.shape al out i.knows;
}

pub link-Shape :
    (stub : ℕ) (q : MpscQueue) (prev : ℕ) (xs : List ℕ)
    → q.pending prev ≢ 0
    → Shape stub q xs
    → Shape stub (link prev q) xs
unfolding link
link-Shape stub q prev xs ne i = record {
  stub_aligned = i.stub_aligned;
  linked = Linked-link q.next q.pending prev xs ne i.linked;
  first = i.first;
  last = i.last;
  distinct = i.distinct;
  aligned = i.aligned;
  quiet = λ a o. ground (arith, i.quiet a);
}

link-Knows :
    (stub : ℕ) (q : MpscQueue) (prev : ℕ) (xs : List ℕ) (pc : Pc)
    → pc ≢ relink prev
    → Knows stub pc q xs
    → Knows stub pc (link prev q) xs
unfolding link
link-Knows stub q prev xs (relink p) ne k = ground arith
link-Knows stub q prev xs outside ne k = k
link-Knows stub q prev xs cas ne k = k
link-Knows stub q prev xs wait_stub ne k = k
link-Knows stub q prev xs reinsert ne k = k
link-Knows stub q prev xs wait_next ne k = k

-- A producer's last store keeps the order.
pub link-Inv :
    (stub : ℕ) (q : MpscQueue) (prev : ℕ) (xs : List ℕ)
    → q.pending prev ≢ 0
    → q.pc ≢ relink prev
    → Inv stub q xs
    → Inv stub (link prev q) xs
unfolding link
link-Inv stub q prev xs ne own i = record {
  shape = link-Shape stub q prev xs ne i.shape;
  knows = link-Knows stub q prev xs q.pc own i.knows;
}

-- A store to an element outside the queue keeps the order.
pub store-Inv :
    (stub : ℕ) (q : MpscQueue) (a v : ℕ) (xs : List ℕ)
    → has a xs ≡ false
    → Inv stub q xs
    → Inv stub (record q { next = update q.next a v }) xs
store-Inv stub q a v xs o i = record {
  shape = record {
    stub_aligned = i.shape.stub_aligned;
    linked = Linked-store q.next q.pending a v xs o i.shape.linked;
    first = i.shape.first;
    last = i.shape.last;
    distinct = i.shape.distinct;
    aligned = i.shape.aligned;
    quiet = i.shape.quiet;
  };
  knows = store-Knows q.pc i.knows;
}
  where
    store-Knows :
        (pc : Pc) → Knows stub pc q xs → Knows stub pc (record q { next = update q.next a v }) xs
    store-Knows (relink p) k = k
    store-Knows outside k = k
    store-Knows cas k = k
    store-Knows wait_stub k = k
    store-Knows reinsert k = k
    store-Knows wait_next k = k
