-- ===== src/Intrusive/Queue/Laws.antt =====
-- The operations of `IntrusiveQueue` on the lists that its two pointers stand for.
use u_threads.Base.{
  ℕ, zero, suc, ◌+◌, ◌-◌, min, ◌≡◌, refl, sym, ◌∙◌, ◌≢◌, ◌⊎◌, true, false, List, [], ◌∷◌, ◌++◌,
  some, arith, ◌==◌, if◌then◌else◌, leb, update, has, Distinct, Apart, take, drop, length,
  Distinct-split, take-append-drop, append-nil, has-append,
}
use u_threads.Intrusive.{Links}
use u_threads.Intrusive.Seg.{
  Seg, last_of, Seg-append, Seg-update, Seg-relink, last_of-ne, has-last_of,
}
use u_threads.Intrusive.Queue.{
  push, IntrusiveQueue, empty_queue, empty, push_chain, cut, pop, walk, pop_many,
}

abbrev pub tail_of : List ℕ → ℕ
tail_of [] = 0
tail_of (x ∷ xs) = last_of x xs

-- The pointers of `q` stand for the elements `xs`, in order.
pub record IsQueue (h : Links) (q : IntrusiveQueue) (xs : List ℕ) : Type 0 where
  pub chain : Seg h.next q.head xs 0
  pub tail : q.tail ≡ tail_of xs
  pub distinct : Distinct xs

-- Only the `next` fields of `xs` differ.
abbrev pub SameOutside : List ℕ → Links → Links → Type 0
SameOutside xs h g = (g.prev ≡ h.prev) × ((a : ℕ) → has a xs ≡ false → g.next a ≡ h.next a)

pub empty_queue-IsQueue : (h : Links) → IsQueue h empty_queue []
unfolding empty_queue
empty_queue-IsQueue h = record { chain = refl; tail = refl; distinct = tt }

-- `empty()` says whether the list is empty.
pub empty-IsQueue :
    (h : Links) (q : IntrusiveQueue) (xs : List ℕ)
    → IsQueue h q xs
    → ((empty q ≡ true) × (xs ≡ [])) ⊎ ((empty q ≡ false) × (xs ≢ []))
unfolding empty
empty-IsQueue h q [] is = ground arith
empty-IsQueue h q (x ∷ xs) is = ground arith

pub Distinct-last_of :
    (x : ℕ) (xs ys : List ℕ) → Distinct ((x ∷ xs) ++ ys) → has (last_of x xs) ys ≡ false
Distinct-last_of x [] ys d = d.0
Distinct-last_of x (y ∷ xs) ys d = Distinct-last_of y xs ys d.1

last_of-append : (x y : ℕ) (xs ys : List ℕ) → last_of x (xs ++ y ∷ ys) ≡ last_of y ys
last_of-append x y [] ys = refl
last_of-append x y (z ∷ xs) ys = last_of-append z y xs ys

-- A linked chain `y ∷ ys` is pushed behind the elements at hand, and only the old last element
-- is written.
pub push_chain-append :
    (h : Links) (q : IntrusiveQueue) (y : ℕ) (xs ys : List ℕ)
    → IsQueue h q xs
    → Seg h.next y (y ∷ ys) 0
    → Distinct (xs ++ y ∷ ys)
    → (q' : IntrusiveQueue) × (h' : Links) × (push_chain y (last_of y ys) q h ≡ some (q', h'))
      × IsQueue h' q' (xs ++ y ∷ ys)
      × SameOutside xs h h'
unfolding push_chain
push_chain-append h q y [] ys is s d = (
  record { head = y; tail = last_of y ys },
  h,
  ground arith,
  record { chain = s; tail = refl; distinct = d },
  (refl, λ a o. refl),
)
push_chain-append h q y (x ∷ xs) ys is s d =
    let h' : Links = record h { next = update h.next (last_of x xs) y } in
    let ne : last_of x xs ≢ 0 = last_of-ne h.next 0 x xs is.chain.1 is.chain.2 in
    let front = Seg-relink h.next q.head 0 y x xs is.distinct is.chain in
    let back =
      Seg-update h.next (last_of x xs) y y 0 (y ∷ ys) (Distinct-last_of x xs (y ∷ ys) d) s in
    let hl = has-last_of x xs in
    (
      record q { tail = last_of y ys },
      h',
      ground (arith, is.tail),
      record {
        chain = Seg-append h'.next q.head y 0 (x ∷ xs) (y ∷ ys) front back;
        tail = sym (last_of-append x y xs ys);
        distinct = d;
      },
      (refl, λ a o. ground arith),
    )

-- `push(elem)` of an element that is linked to nothing and not in the queue.
pub push-append :
    (h : Links) (q : IntrusiveQueue) (y : ℕ) (xs : List ℕ)
    → IsQueue h q xs
    → y ≢ 0
    → h.next y ≡ 0
    → Distinct (xs ++ y ∷ [])
    → (q' : IntrusiveQueue) × (h' : Links) × (push y q h ≡ some (q', h'))
      × IsQueue h' q' (xs ++ y ∷ [])
      × SameOutside xs h h'
unfolding push
push-append h q y xs is ne z d = push_chain-append h q y xs [] is (refl, ne, z) d

pub Seg-split :
    (next : ℕ → ℕ) (p q x : ℕ) (xs ys : List ℕ)
    → Seg next p ((x ∷ xs) ++ ys) q
    → Seg next p (x ∷ xs) (next (last_of x xs)) × Seg next (next (last_of x xs)) ys q
Seg-split next p q x [] ys s = ((s.0, s.1, refl), s.2)
Seg-split next p q x (y ∷ xs) ys s =
    let (a, b) = Seg-split next (next x) q y xs ys s.2 in ((s.0, s.1, a), b)

tail_of-append_ne :
    (x : ℕ) (xs ys : List ℕ)
    → Distinct ((x ∷ xs) ++ ys)
    → (if tail_of ((x ∷ xs) ++ ys) == last_of x xs then 0 else tail_of ((x ∷ xs) ++ ys))
      ≡ tail_of ys
tail_of-append_ne x xs [] d = ground (arith, append-nil xs)
tail_of-append_ne x xs (y ∷ ys) d =
    ground (arith, last_of-append x y xs ys, Distinct-last_of x xs (y ∷ ys) d, has-last_of y ys)

-- The elements up to `last` are cut off and end in `nullptr`; the others stay.
cut-split :
    (h : Links) (q : IntrusiveQueue) (x : ℕ) (xs ys : List ℕ)
    → IsQueue h q ((x ∷ xs) ++ ys)
    → (q' : IntrusiveQueue) × (h' : Links) × (cut (last_of x xs) q h ≡ some (q', h'))
      × IsQueue h' q' ys
      × Seg h'.next x (x ∷ xs) 0
      × SameOutside (x ∷ xs) h h'
unfolding cut
cut-split h q x xs ys is =
    let last = last_of x xs in
    let (front, back) = Seg-split h.next q.head 0 x xs ys is.chain in
    let (dx, dy, apart) = Distinct-split (x ∷ xs) ys is.distinct in
    let ne : last ≢ 0 = last_of-ne h.next (h.next last) x xs front.1 front.2 in
    let h' : Links = record h { next = update h.next last 0 } in
    let hl = has-last_of x xs in
    let relinked = Seg-relink h.next q.head (h.next last) 0 x xs dx front in
    (
      record { head = h.next last; tail = if q.tail == last then 0 else q.tail },
      h',
      ground arith,
      record {
        chain =
            Seg-update h.next last 0 (h.next last) 0 ys (Distinct-last_of x xs ys is.distinct) back;
        tail = rw is.tail (tail_of-append_ne x xs ys is.distinct);
        distinct = dy;
      },
      (refl, relinked.1, relinked.2),
      (refl, λ a o. ground arith),
    )

-- `pop()` takes the first element, and leaves it linked to nothing.
pub pop-cons :
    (h : Links) (q : IntrusiveQueue) (x : ℕ) (xs : List ℕ)
    → IsQueue h q (x ∷ xs)
    → (q' : IntrusiveQueue) × (h' : Links) × (pop q h ≡ some (x, q', h'))
      × IsQueue h' q' xs
      × (h'.next x ≡ 0)
      × SameOutside (x ∷ []) h h'
unfolding pop
pop-cons h q x xs is =
    let (q', h', e, is', s, same) = cut-split h q x [] xs is in
    (q', h', ground arith, is', s.2, same)

pub walk-take :
    (h : Links) (rounds x i count : ℕ) (xs : List ℕ)
    → x ≢ 0
    → Seg h.next (h.next x) xs 0
    → walk rounds x i count h
      ≡ some (last_of x (take rounds xs), if leb rounds (length xs) then count else i + length xs)
unfolding walk
walk-take h zero x i count xs ne s = ground arith
walk-take h (suc r) x i count [] ne s = ground arith
walk-take h (suc r) x i count (y ∷ ys) ne s =
    ground (arith, walk-take h r y (i + 1) count ys s.1 s.2)

-- `pop(count)` with a positive `count` takes that many elements, or all there are, says how many,
-- and leaves them linked from the first to the last.
pub pop_many-take :
    (h : Links) (q : IntrusiveQueue) (c x : ℕ) (xs : List ℕ)
    → IsQueue h q (x ∷ xs)
    → (q' : IntrusiveQueue) × (h' : Links) × (pop_many (suc c) q h
        ≡ some (last_of x (take c xs), min (suc c) (length (x ∷ xs)), q', h'))
      × IsQueue h' q' (drop c xs)
      × Seg h'.next x (x ∷ take c xs) 0
      × SameOutside (x ∷ take c xs) h h'
unfolding pop_many
pop_many-take h q c x xs is =
    let parts = take-append-drop c xs in
    let is' : IsQueue h q ((x ∷ take c xs) ++ drop c xs) = rw parts is in
    let (q', h', e, is'', s, same) = cut-split h q x (take c xs) (drop c xs) is' in
    let rounds : suc c - 1 ≡ c = omega arith in
    (
      q',
      h',
      rw rounds (ground (arith, walk-take h c x 1 (suc c) xs is.chain.1 is.chain.2)),
      is'',
      s,
      same,
    )

pub Seg-same :
    (h g : Links) (p : ℕ) (xs ys : List ℕ)
    → SameOutside xs h g
    → Apart ys xs
    → Seg h.next p ys 0
    → Seg g.next p ys 0
Seg-same h g p xs [] same apart s = s
Seg-same h g p xs (y ∷ ys) same apart s =
    (s.0, s.1, rw (same.1 y apart.0) (Seg-same h g (h.next y) xs ys same apart.1 s.2))

-- Another queue, whose elements an operation does not write, is left as it was.
pub IsQueue-frame :
    (h g : Links) (q : IntrusiveQueue) (xs ys : List ℕ)
    → SameOutside xs h g
    → Apart ys xs
    → IsQueue h q ys
    → IsQueue g q ys
IsQueue-frame h g q xs ys same apart is = record {
  chain = Seg-same h g q.head xs ys same apart is.chain;
  tail = is.tail;
  distinct = is.distinct;
}

-- What two operations write in turn.
pub SameOutside-both :
    (xs ys : List ℕ) (h g k : Links)
    → SameOutside ys h g
    → SameOutside xs g k
    → SameOutside (xs ++ ys) h k
SameOutside-both xs ys h g k s t =
    (t.0 ∙ s.0, λ a o. ground (arith, has-append a xs ys, s.1 a, t.1 a))
