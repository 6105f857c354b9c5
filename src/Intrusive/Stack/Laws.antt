-- ===== src/Intrusive/Stack/Laws.antt =====
-- The operations of `IntrusiveStack` on the lists that its head stands for.
use u_threads.Base.{
  ℕ, suc, ◌-◌, min, ◌≡◌, refl, ◌≢◌, false, List, [], ◌∷◌, ◌++◌, some, arith, update, has, Distinct,
  Apart, take, drop, length, has-take, Distinct-split, Distinct-append, Apart-sub, Apart-comm,
  take-append-drop,
}
use u_threads.Intrusive.{Links}
use u_threads.Intrusive.Seg.{
  Seg, last_of, Seg-append, Seg-update, Seg-relink, last_of-ne, has-last_of,
}
use u_threads.Intrusive.Queue.Laws.{SameOutside, Seg-split, Seg-same, Distinct-last_of, walk-take}
use u_threads.Intrusive.Stack.{push_chain, push, cut, pop, pop_many, transfer_from}

-- The head stands for the elements `xs`, the top first.
pub record IsStack (h : Links) (head : ℕ) (xs : List ℕ) : Type 0 where
  pub chain : Seg h.next head xs 0
  pub distinct : Distinct xs

-- A linked chain `y ∷ ys` goes on top.
pub push_chain-cons :
    (h : Links) (head v y : ℕ) (xs ys : List ℕ)
    → IsStack h head xs
    → Seg h.next y (y ∷ ys) v
    → Distinct ((y ∷ ys) ++ xs)
    → (h' : Links) × (push_chain y (last_of y ys) head h ≡ some (y, h'))
      × IsStack h' y ((y ∷ ys) ++ xs)
      × SameOutside (y ∷ ys) h h'
unfolding push_chain
push_chain-cons h head v y xs ys is s d =
    let last = last_of y ys in
    let (dy, dx, apart) = Distinct-split (y ∷ ys) xs d in
    let ne : last ≢ 0 = last_of-ne h.next v y ys s.1 s.2 in
    let front = Seg-relink h.next y v head y ys dy s in
    let back = Seg-update h.next last head head 0 xs (Distinct-last_of y ys xs d) is.chain in
    let hl = has-last_of y ys in
    (
      record h { next = update h.next last head },
      ground arith,
      record {
        chain = Seg-append (update h.next last head) y head 0 (y ∷ ys) xs front back;
        distinct = d;
      },
      (refl, λ a o. ground arith),
    )

cut-split :
    (h : Links) (head x : ℕ) (xs ys : List ℕ)
    → IsStack h head ((x ∷ xs) ++ ys)
    → (head' : ℕ) × (h' : Links) × (cut (last_of x xs) h ≡ some (head', h'))
      × IsStack h' head' ys
      × Seg h'.next x (x ∷ xs) 0
      × SameOutside (x ∷ xs) h h'
unfolding cut
cut-split h head x xs ys is =
    let last = last_of x xs in
    let (front, back) = Seg-split h.next head 0 x xs ys is.chain in
    let (dx, dy, apart) = Distinct-split (x ∷ xs) ys is.distinct in
    let ne : last ≢ 0 = last_of-ne h.next (h.next last) x xs front.1 front.2 in
    let hl = has-last_of x xs in
    let relinked = Seg-relink h.next head (h.next last) 0 x xs dx front in
    (
      h.next last,
      record h { next = update h.next last 0 },
      ground arith,
      record {
        chain =
            Seg-update h.next last 0 (h.next last) 0 ys (Distinct-last_of x xs ys is.distinct) back;
        distinct = dy;
      },
      (refl, relinked.1, relinked.2),
      (refl, λ a o. ground arith),
    )

-- `pop()` takes the top and leaves it linked to nothing.
pub pop_top :
    (h : Links) (head x : ℕ) (xs : List ℕ)
    → IsStack h head (x ∷ xs)
    → (head' : ℕ) × (h' : Links) × (pop head h ≡ some (x, head', h'))
      × IsStack h' head' xs
      × (h'.next x ≡ 0)
      × SameOutside (x ∷ []) h h'
unfolding pop
pop_top h head x xs is =
    let (head', h', e, is', s, same) = cut-split h head x [] xs is in
    let at : head ≡ x = is.chain.0 in (head', h', ground arith, is', s.2, same)

-- `push(elem)` of an element that is not on the stack puts it on top.
pub push_top :
    (h : Links) (head x : ℕ) (xs : List ℕ)
    → IsStack h head xs
    → x ≢ 0
    → has x xs ≡ false
    → (h' : Links) × (push x head h ≡ some (x, h'))
      × IsStack h' x (x ∷ xs)
      × SameOutside (x ∷ []) h h'
unfolding push
push_top h head x xs is ne out =
    push_chain-cons h head (h.next x) x xs [] is (refl, ne, refl) (out, is.distinct)

-- `pop(count)` with a positive `count` takes that many elements from the top, or all there are.
pub pop_many-top :
    (h : Links) (head c x : ℕ) (xs : List ℕ)
    → IsStack h head (x ∷ xs)
    → (head' : ℕ) × (h' : Links) × (pop_many (suc c) head h
        ≡ some (last_of x (take c xs), min (suc c) (length (x ∷ xs)), head', h'))
      × IsStack h' head' (drop c xs)
      × Seg h'.next x (x ∷ take c xs) 0
      × SameOutside (x ∷ take c xs) h h'
unfolding pop_many
pop_many-top h head c x xs is =
    let parts = take-append-drop c xs in
    let is' : IsStack h head ((x ∷ take c xs) ++ drop c xs) = rw parts is in
    let (head', h', e, is'', s, same) = cut-split h head x (take c xs) (drop c xs) is' in
    let rounds : suc c - 1 ≡ c = omega arith in
    let at : head ≡ x = is.chain.0 in
    (
      head',
      h',
      rw rounds (ground (arith, walk-take h c x 1 (suc c) xs is.chain.1 is.chain.2)),
      is'',
      s,
      same,
    )

-- `transferFrom(es, count)` with a positive `count` moves that many elements from the top of `es`,
-- in order, to the top of this stack.
pub transfer_from-top :
    (h : Links) (head es c y : ℕ) (xs ys : List ℕ)
    → IsStack h head xs
    → IsStack h es (y ∷ ys)
    → Apart xs (y ∷ ys)
    → (head' : ℕ) × (es' : ℕ) × (h' : Links) × (transfer_from (suc c) head es h
        ≡ some (min (suc c) (length (y ∷ ys)), head', es', h'))
      × IsStack h' head' (take (suc c) (y ∷ ys) ++ xs)
      × IsStack h' es' (drop (suc c) (y ∷ ys))
unfolding transfer_from
transfer_from-top h head es c y xs ys is ise apart =
    let ts = y ∷ take c ys in
    let (es', h', e, is', s, same) = pop_many-top h es c y ys ise in
    let apart_t : Apart xs ts =
      Apart-sub xs (y ∷ ys) ts apart (λ a o. has-take a (suc c) (y ∷ ys) o) in
    let (dt, dd, td) = Distinct-split ts (drop c ys) (rw (take-append-drop c ys) ise.distinct) in
    let isx : IsStack h' head xs = record {
      chain = Seg-same h h' head ts xs same apart_t is.chain;
      distinct = is.distinct;
    } in
    let d = Distinct-append ts xs dt is.distinct (Apart-comm xs ts apart_t) in
    let (h'', e', is'', same') = push_chain-cons h' head 0 y xs (take c ys) isx s d in
    let at : es ≡ y = ise.chain.0 in
    (
      y,
      es',
      h'',
      ground arith,
      is'',
      record {
        chain = Seg-same h' h'' es' ts (drop c ys) same' (Apart-comm ts (drop c ys) td) is'.chain;
        distinct = is'.distinct;
      },
    )
