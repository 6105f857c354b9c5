-- ===== src/Mpsc/Run/Fifo.antt =====
-- What every interleaving of producers and consumer gives: a first-in first-out queue.
use u_threads.Base.{
  ℕ, ◌≡◌, sym, ◌∙◌, subst, ap, ◌≢◌, ◌⊎◌, inl, inr, true, false, List, [], ◌∷◌, ◌++◌, arith, has,
  Apart, append_assoc, append-nil,
}
use u_threads.Mpsc.{
  MpscQueue, Pc, outside, cas, wait_stub, reinsert, relink, wait_next, is_marked, exchange, link,
  pop_at, pop_step, returns,
}
use u_threads.Mpsc.Run.{Aligned, returned, Run, start, prepares, pushes, links, pops}
use u_threads.Mpsc.Run.Inv.{
  Knows, Shape, Inv, without, without-append, without-absent, Apart-order, init-Inv, unmarked,
  unmark-mark,
}
use u_threads.Mpsc.Run.Steps.{exchange-Inv, link-Inv, store-Inv}
use u_threads.Mpsc.Run.Consumer.{pop_step-Keeps, ends_alone}

-- The order of a reachable state holds what was pushed and not popped.
abbrev Holds : ℕ → MpscQueue → List ℕ → List ℕ → Type 0
Holds stub q pushed popped = (xs : List ℕ) × Inv stub q xs × (pushed ≡ popped ++ without stub xs)

Apart-Order :
    (stub : ℕ) (ys xs : List ℕ) → has stub ys ≡ false → Apart ys (without stub xs) → Apart ys xs
Apart-Order stub [] xs out a = tt
Apart-Order stub (y ∷ ys) xs out a =
    (Apart-order stub y xs (ground arith) a.0, Apart-Order stub ys xs (ground arith) a.1)

after_push :
    (pushed popped c ys : List ℕ) → pushed ≡ popped ++ c → pushed ++ ys ≡ popped ++ (c ++ ys)
after_push pushed popped c ys e = ap (λ l. l ++ ys) e ∙ append_assoc popped c ys

after_pop :
    (pushed popped r c d : List ℕ) → pushed ≡ popped ++ c → c ≡ r ++ d → pushed ≡ (popped ++ r) ++ d
after_pop pushed popped r c d e f = e ∙ (ap (λ l. popped ++ l) f ∙ sym (append_assoc popped r d))

pub Run-Holds :
    (stub : ℕ) {q : MpscQueue} {pushed popped : List ℕ}
    → Aligned (stub ∷ [])
    → Run stub q pushed popped
    → Holds stub q pushed popped
Run-Holds stub al start = (stub ∷ [], init-Inv stub al, ground arith)
Run-Holds stub al (prepares {q} a v r f) =
    let (xs, i, e) = Run-Holds stub al r in
    let o = Apart-Order stub (a ∷ []) xs f.not_stub (f.apart (without stub xs) e) in
    (xs, store-Inv stub q a v xs o.0 i, e)
Run-Holds stub al (pushes {q} {pushed} {popped} v x xs r s f) =
    let (ys, i, e) = Run-Holds stub al r in
    let o = Apart-Order stub (x ∷ xs) ys f.not_stub (f.apart (without stub ys) e) in
    let new : without stub ys ++ x ∷ xs ≡ without stub (ys ++ x ∷ xs) = sym (
      without-append stub ys (x ∷ xs)
      ∙ ap (λ l. without stub ys ++ l) (without-absent stub (x ∷ xs) f.not_stub)) in
    (
      ys ++ x ∷ xs,
      exchange-Inv stub q v x ys xs i s f.aligned f.distinct f.not_stub o,
      after_push pushed popped (without stub ys) (x ∷ xs) e ∙ ap (λ l. popped ++ l) new,
    )
Run-Holds stub al (links {q} prev r ne own) =
    let (xs, i, e) = Run-Holds stub al r in (xs, link-Inv stub q prev xs ne own i, e)
Run-Holds stub al (pops {q} {pushed} {popped} r) =
    let (xs, i, e) = Run-Holds stub al r in
    let (ys, i', e') = pop_step-Keeps stub q xs i in
    (
      ys,
      i',
      after_pop pushed popped (returned (pop_step stub q).1) (without stub xs) (without stub ys) e
          e',
    )

null_at :
    (stub : ℕ) (q : MpscQueue) (pc : Pc) (xs : List ℕ)
    → Shape stub q xs
    → Knows stub pc q xs
    → (pop_at stub q pc).1 ≡ returns 0
    → (without stub xs ≡ []) × (is_marked (pop_at stub q pc).0.tail ≡ true)
unfolding pop_at
null_at stub q outside xs i k n = ground arith
null_at stub q cas [] i k n = absurd i.first
null_at stub q cas (x ∷ xs) i k n = ground (
  arith,
  i.stub_aligned,
  unmark-mark stub i.stub_aligned.1,
  unmarked q.tail k.1,
  ends_alone x xs i.distinct,
)
null_at stub q wait_stub xs i k n = ground arith
null_at stub q reinsert xs i k n = ground arith
null_at stub q (relink p) xs i k n = ground arith
null_at stub q wait_next [] i k n = absurd i.first
null_at stub q wait_next (x ∷ xs) i k n = ground (arith, i.aligned.0)

marked_at :
    (stub : ℕ) (q : MpscQueue) (pc : Pc) (xs : List ℕ)
    → Knows stub pc q xs
    → is_marked q.tail ≡ true
    → (without stub xs ≡ []) × (pc ≡ outside)
marked_at stub q outside xs k m = ground arith
marked_at stub q cas xs k m = ground arith
marked_at stub q wait_stub xs k m = ground arith
marked_at stub q reinsert xs k m = ground arith
marked_at stub q (relink p) xs k m = ground arith
marked_at stub q wait_next xs k m = ground arith

-- The consumer is in a wait loop that has to go round again.
abbrev pub Waits : ℕ → MpscQueue → Type 0
Waits stub q = ((q.pc ≡ wait_stub) × (q.next stub ≡ 0)) ⊎ ((q.pc ≡ wait_next) × (q.next q.head ≡ 0))

wait_stub-Waits :
    (stub : ℕ) (q : MpscQueue) (xs : List ℕ)
    → Shape stub q xs
    → Knows stub wait_stub q xs
    → q.pc ≡ wait_stub
    → q.next stub ≡ 0
    → (q.pending q.head ≢ 0) × (q.pc ≢ relink q.head) × ¬ Waits stub (link q.head q)
unfolding link
wait_stub-Waits stub q [] i k e n = absurd i.first
wait_stub-Waits stub q (x ∷ []) i k e n = absurd (ground (arith, unmarked q.tail k.1))
wait_stub-Waits stub q (x ∷ y ∷ r) i k e n = (ground arith, ground arith, λ w. ground arith)

wait_next-Waits :
    (stub : ℕ) (q : MpscQueue) (xs : List ℕ)
    → Shape stub q xs
    → Knows stub wait_next q xs
    → q.pc ≡ wait_next
    → q.next q.head ≡ 0
    → (q.pending q.head ≢ 0) × (q.pc ≢ relink q.head) × ¬ Waits stub (link q.head q)
unfolding link
wait_next-Waits stub q [] i k e n = absurd i.first
wait_next-Waits stub q (x ∷ []) i k e n = absurd (ground arith)
wait_next-Waits stub q (x ∷ y ∷ r) i k e n = (ground arith, ground arith, λ w. ground arith)

head-Waits :
    (stub : ℕ) (q : MpscQueue) (xs : List ℕ)
    → Inv stub q xs
    → Waits stub q
    → (q.pending q.head ≢ 0) × (q.pc ≢ relink q.head) × ¬ Waits stub (link q.head q)
head-Waits stub q xs i (inl w) =
    wait_stub-Waits stub q xs i.shape (subst (λ p. Knows stub p q xs) w.0 i.knows) w.0 w.1
head-Waits stub q xs i (inr w) =
    wait_next-Waits stub q xs i.shape (subst (λ p. Knows stub p q xs) w.0 i.knows) w.0 w.1

module _ (stub : ℕ) {q : MpscQueue} {pushed popped : List ℕ} (al : Aligned (stub ∷ []))
    (r : Run stub q pushed popped) where
  -- In every interleaving, what `pop()` returned is a prefix of what was pushed, in the order of
  -- the exchanges: no element is lost, made up, returned twice or out of order.
  pub fifo : (rest : List ℕ) × (pushed ≡ popped ++ rest)
  fifo = let (xs, i, e) = Run-Holds stub al r in (without stub xs, e)

  -- `pop()` returns the null pointer only when all that was pushed has been popped, and then leaves
  -- `tail` marked.
  pub pop-null :
      (pop_step stub q).1 ≡ returns 0
      → (pushed ≡ popped) × (is_marked (pop_step stub q).0.tail ≡ true)
  unfolding pop_step
  pop-null n =
      let (xs, i, e) = Run-Holds stub al r in
      let (none_left, m) = null_at stub q q.pc xs i.shape i.knows n in
      (e ∙ (ap (λ l. popped ++ l) none_left ∙ append-nil popped), m)

  -- A marked `tail` says that all that was pushed has been popped.
  pub empty_of_marked : is_marked q.tail ≡ true → (pushed ≡ popped) × (q.pc ≡ outside)
  empty_of_marked m =
      let (xs, i, e) = Run-Holds stub al r in
      let (none_left, out) = marked_at stub q q.pc xs i.knows m in
      (e ∙ (ap (λ l. popped ++ l) none_left ∙ append-nil popped), out)

  -- `push` reports an empty queue only when all that was pushed before has been popped and the
  -- consumer is not in `pop()`.
  pub push-was_empty :
      (first last : ℕ) → (exchange first last q).1 ≡ true → (pushed ≡ popped) × (q.pc ≡ outside)
  unfolding exchange
  push-was_empty first last m = empty_of_marked m

  -- Where `pop()` waits, some producer is between its exchange and its last store, and once that
  -- store is made, `pop()` no longer waits.
  pub pop-Waits :
      Waits stub q
      → (prev : ℕ) × (q.pending prev ≢ 0) × (q.pc ≢ relink prev) × ¬ Waits stub (link prev q)
  pop-Waits w =
      let (xs, i, e) = Run-Holds stub al r in
      let (p, own, n) = head-Waits stub q xs i w in (q.head, p, own, n)
