-- ===== src/Intrusive/Queue/Moves.antt =====
-- The operations that move elements from one intrusive queue to another.
use u_threads.Base.{
  ℕ, suc, min, ◌≡◌, refl, ◌≢◌, List, ◌∷◌, ◌++◌, some, arith, update, Apart, take, drop, length,
  Distinct-append, has-take, has-drop, Distinct-take, Apart-sub, Apart-comm,
}
use u_threads.Intrusive.{Links}
use u_threads.Intrusive.Seg.{Seg, last_of, Seg-relink, last_of-ne, has-last_of}
use u_threads.Intrusive.Queue.{
  IntrusiveQueue, empty_queue, transfer_from, remove_all, transfer_all_from,
}
use u_threads.Intrusive.Queue.Laws.{
  IsQueue, SameOutside, push_chain-append, pop_many-take, IsQueue-frame, SameOutside-both,
}

-- `transferFrom(eq, count)` with a positive `count` moves that many elements, or all there are,
-- from the front of `eq` to the end of this queue, in order, and says how many.
pub transfer_from-take :
    (h : Links) (q eq : IntrusiveQueue) (c y : ℕ) (xs ys : List ℕ)
    → IsQueue h q xs
    → IsQueue h eq (y ∷ ys)
    → Apart xs (y ∷ ys)
    → (q' : IntrusiveQueue) × (eq' : IntrusiveQueue) × (h' : Links) × (transfer_from (suc c) q eq h
        ≡ some (min (suc c) (length (y ∷ ys)), q', eq', h'))
      × IsQueue h' q' (xs ++ take (suc c) (y ∷ ys))
      × IsQueue h' eq' (drop (suc c) (y ∷ ys))
      × SameOutside (xs ++ take (suc c) (y ∷ ys)) h h'
unfolding transfer_from
transfer_from-take h q eq c y xs ys is ise apart =
    let ts = y ∷ take c ys in
    let (eq', h', e, is', s, same) = pop_many-take h eq c y ys ise in
    let apart_t : Apart xs ts =
      Apart-sub xs (y ∷ ys) ts apart (λ a o. has-take a (suc c) (y ∷ ys) o) in
    let apart_d : Apart xs (drop c ys) =
      Apart-sub xs (y ∷ ys) (drop c ys) apart (λ a o. has-drop a (suc c) (y ∷ ys) o) in
    let isq = IsQueue-frame h h' q ts xs same apart_t is in
    let d =
      Distinct-append xs ts is.distinct (Distinct-take (suc c) (y ∷ ys) ise.distinct) apart_t in
    let (q', h'', e', is'', same') = push_chain-append h' q y xs (take c ys) isq s d in
    let rest =
      IsQueue-frame h' h'' eq' xs (drop c ys) same' (Apart-comm xs (drop c ys) apart_d) is' in
    (q', eq', h'', ground arith, is'', rest, SameOutside-both xs ts h h' h'' same same')

-- `removeAll()` hands out the last element, with the elements linked up to it, and leaves the
-- queue empty.
pub remove_all-chain :
    (h : Links) (q : IntrusiveQueue) (x : ℕ) (xs : List ℕ)
    → IsQueue h q (x ∷ xs)
    → (h' : Links) × (remove_all q h ≡ some (last_of x xs, empty_queue, h'))
      × Seg h'.next x (x ∷ xs) 0
      × SameOutside (x ∷ xs) h h'
unfolding remove_all
remove_all-chain h q x xs is =
    let last = last_of x xs in
    let ne : last ≢ 0 = last_of-ne h.next 0 x xs is.chain.1 is.chain.2 in
    let s = Seg-relink h.next q.head 0 0 x xs is.distinct is.chain in
    let hl = has-last_of x xs in
    (
      record h { next = update h.next last 0 },
      ground (arith, is.tail),
      (refl, s.1, s.2),
      (refl, λ a o. ground arith),
    )

-- `transferAllFrom(eq)` moves every element of `eq` to the end of this queue.
pub transfer_all_from-append :
    (h : Links) (q eq : IntrusiveQueue) (y : ℕ) (xs ys : List ℕ)
    → IsQueue h q xs
    → IsQueue h eq (y ∷ ys)
    → Apart xs (y ∷ ys)
    → (q' : IntrusiveQueue) × (h' : Links) × (transfer_all_from q eq h ≡ some (q', empty_queue, h'))
      × IsQueue h' q' (xs ++ y ∷ ys)
      × SameOutside (xs ++ y ∷ ys) h h'
unfolding transfer_all_from remove_all
transfer_all_from-append h q eq y xs ys is ise apart =
    let (h', e, s, same) = remove_all-chain h eq y ys ise in
    let isq = IsQueue-frame h h' q (y ∷ ys) xs same apart is in
    let d = Distinct-append xs (y ∷ ys) is.distinct ise.distinct apart in
    let (q', h'', e', is'', same') = push_chain-append h' q y xs ys isq s d in
    (q', h'', ground (arith, ise.tail), is'', SameOutside-both xs (y ∷ ys) h h' h'' same same')
