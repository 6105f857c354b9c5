-- ===== src/Mpsc/Run/Total.antt =====
-- `pop()` with no producer in the middle of an insert: it returns, within six of its steps.
use u_threads.Base.{
  ℕ, zero, suc, ◌≡◌, refl, subst, ap, ◌≢◌, inl, inr, true, false, List, [], ◌∷◌, ◌++◌, arith, ◌==◌,
  ◌<◌, ◌≤◌, Option, none, some, append-nil, Bool-cases,
}
use u_threads.Mpsc.{
  MpscQueue, Pc, outside, cas, wait_stub, reinsert, relink, wait_next, is_marked, exchange, link,
  pop_at, pop_step, Outcome, goes_on, returns, continue, pop,
}
use u_threads.Mpsc.Run.{Aligned, returned, Run, pops}
use u_threads.Mpsc.Run.Inv.{Knows, Shape, Inv, unmarked}
use u_threads.Mpsc.Run.Fifo.{Run-Holds, pop-null}

-- No insert is between its exchange and its last store, but for the consumer's own.
abbrev pub IsCalm : MpscQueue → Type 0
IsCalm q = (a : ℕ) → q.pending a ≢ 0 → q.pc ≡ relink a

-- How many steps are left before the one that returns.
abbrev pub steps_left : Pc → ℕ
steps_left outside = 5
steps_left cas = 4
steps_left wait_stub = 3
steps_left reinsert = 2
steps_left (relink p) = 1
steps_left wait_next = 0

abbrev Advances : Pc → MpscQueue × Outcome → Type 0
Advances pc (q', returns p) = IsCalm q' × (q'.pc ≡ outside)
Advances pc (q', goes_on) = IsCalm q' × (steps_left q'.pc < steps_left pc)

at-Advances :
    (stub : ℕ) (q : MpscQueue) (pc : Pc) (xs : List ℕ)
    → q.pc ≡ pc
    → IsCalm q
    → Shape stub q xs
    → Knows stub pc q xs
    → Advances pc (pop_at stub q pc)
unfolding pop_at exchange link
at-Advances stub q outside xs e c i k = elim (Bool-cases (q.head == stub)) [
  | inl empty ↦ elim (Bool-cases (is_marked q.tail)) [
    | inl m ↦ rw (empty, m) (c, e)
    | inr m ↦ rw (empty, m) (λ a n. ground (arith, c a), omega arith)
  ]
  | inr ne ↦ rw ne (λ a n. ground (arith, c a), omega arith)
]
at-Advances stub q cas xs e c i k = elim (Bool-cases (q.tail == stub)) [
  | inl won ↦ rw won (λ a n. ground (arith, c a), refl)
  | inr lost ↦ rw lost (λ a n. ground (arith, c a), omega arith)
]
at-Advances stub q wait_stub [] e c i k = absurd i.first
at-Advances stub q wait_stub (x ∷ []) e c i k = absurd (ground (arith, unmarked q.tail k.1))
at-Advances stub q wait_stub (x ∷ y ∷ r) e c i k =
    let ne : (q.next stub == 0) ≡ false = ground (arith, c stub) in
    rw ne (λ a n. ground (arith, c a), omega arith)
at-Advances stub q reinsert xs e c i k = (λ a n. ground (arith, c a), omega arith)
at-Advances stub q (relink p) xs e c i k = (λ a n. ground (arith, c a), omega arith)
at-Advances stub q wait_next [] e c i k = absurd i.first
at-Advances stub q wait_next (x ∷ []) e c i k = absurd (ground arith)
at-Advances stub q wait_next (x ∷ y ∷ r) e c i k =
    let ne : (q.next q.head == 0) ≡ false = ground (arith, c q.head) in
    rw ne (λ a n. ground (arith, c a), refl)

step-Advances :
    (stub : ℕ) (q : MpscQueue) (xs : List ℕ)
    → IsCalm q
    → Inv stub q xs
    → Advances q.pc (pop_step stub q)
unfolding pop_step
step-Advances stub q xs c i = at-Advances stub q q.pc xs refl c i.shape i.knows

-- What a run of `pop()` ends in.
abbrev pub Pops : ℕ → List ℕ → List ℕ → Option (MpscQueue × ℕ) → Type 0
Pops stub pushed popped none = ⊥
Pops stub pushed popped (some (q, p)) =
    Run stub q pushed (popped ++ returned (returns p))
    × IsCalm q
    × (q.pc ≡ outside)
    × (p ≡ 0 → (pushed ≡ popped) × (is_marked q.tail ≡ true))

after_step :
    (fuel stub : ℕ) (pushed popped : List ℕ) (pc : Pc) (res : MpscQueue × Outcome)
    → ((q : MpscQueue)
        → Run stub q pushed popped
        → IsCalm q
        → steps_left q.pc < fuel
        → Pops stub pushed popped (pop fuel stub q))
    → steps_left pc ≤ fuel
    → Run stub res.0 pushed (popped ++ returned res.1)
    → Advances pc res
    → (res.1 ≡ returns 0 → (pushed ≡ popped) × (is_marked res.0.tail ≡ true))
    → Pops stub pushed popped (continue (pop fuel stub) res)
after_step fuel stub pushed popped pc (q, returns p) rec h r adv null =
    (r, adv.0, adv.1, λ e. null (ap returns e))
after_step fuel stub pushed popped pc (q, goes_on) rec h r adv null =
    rec q (subst (λ l. Run stub q pushed l) (append-nil popped) r) adv.0 (omega arith)

-- With no producer in the middle of an insert, `pop()` returns within as many steps as are left to
-- it (six, from its first): either the next element, or the null pointer when all has been popped.
pub pop-Pops :
    (fuel stub : ℕ) {q : MpscQueue} {pushed popped : List ℕ}
    → Aligned (stub ∷ [])
    → Run stub q pushed popped
    → IsCalm q
    → steps_left q.pc < fuel
    → Pops stub pushed popped (pop fuel stub q)
unfolding pop
pop-Pops zero stub al r c h = absurd (omega arith)
pop-Pops (suc fuel) stub {q} {pushed} {popped} al r c h =
    let (xs, i, e) = Run-Holds stub al r in
    after_step fuel stub pushed popped q.pc (pop_step stub q)
      (λ q' r' c' h'. pop-Pops fuel stub al r' c' h') (omega arith) (pops r)
      (step-Advances stub q xs c i) (pop-null stub al r)
