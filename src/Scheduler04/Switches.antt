-- ===== src/Scheduler04/Switches.antt =====
-- src/runtime/schedulers/Scheduler_04.h: what a switch finds, and the node that it gives away.
use u_threads.Base.{
  ℕ, ◌≡◌, ◌≢◌, refl, sym, ap, subst, ◌∙◌, inl, inr, Bool, true, false, Bool-cases, List, [], ◌∷◌,
  some, ◌==◌, if◌then◌else◌, update, has, Distinct, arith,
}
use u_threads.Intrusive.Seg.{Seg, last_of}
use u_threads.Scheduler04.{
  NodeQueue, pop, Scheduler, none_to_run, main_ut, ut_to_run, take_node, after_pop,
  non_blocking_switch,
}
use u_threads.Scheduler04.Nodes.{spare, Holds, map-update}

-- An empty queue is marked, and nothing else changes.
unfoldable pub mark : Scheduler → Scheduler
mark s = record s { run_queue = record s.run_queue { marked = true } }

pop-marks :
    (q : NodeQueue)
    → q.next q.head ≡ 0
    → q.tail ≡ q.head
    → pop q ≡ some (0, record q { marked = true })
unfolding pop
pop-marks q z t =
    let none_behind : (q.next q.head == 0) ≡ true = ground arith in
    let at_tail : (q.head == q.tail) ≡ true = ground arith in
    elim (Bool-cases q.marked) [
      | inl m ↦ rw (none_behind, m) refl
      | inr m ↦ rw (none_behind, m, at_tail) refl
    ]

pub pop-nil :
    (fresh : ℕ) (s : Scheduler) (nodes : List ℕ)
    → Holds fresh s [] nodes
    → (pop s.run_queue ≡ some (0, (mark s).run_queue)) × Holds fresh (mark s) [] nodes
unfolding pop mark spare
pop-nil fresh s [] i = (
  pop-marks s.run_queue i.chain.2 i.tail,
  record {
    chain = i.chain;
    tail = i.tail;
    states = i.states;
    marked = λ e. refl;
    distinct = i.distinct;
    spare_ne = i.spare_ne;
    owns = i.owns;
    one_owner = i.one_owner;
    uthreads = i.uthreads;
    outside = i.outside;
  },
)
pop-nil fresh s (n ∷ ns) i = absurd (ground (arith, i.states))

-- The first node behind the head is the new head, and the old one is kept for the next switch.
unfoldable pub taken : ℕ → ℕ → Scheduler → Scheduler
unfolding spare
taken fresh x s = record s {
  run_queue = record s.run_queue {
    head = s.run_queue.next s.run_queue.head;
    state = update s.run_queue.state s.run_queue.head x;
  };
  node_of = update s.node_of x (spare fresh s);
  tmp_node = s.run_queue.head;
}

taken-owns :
    (fresh x n u : ℕ) (s : Scheduler) (xs ns : List ℕ)
    → Holds fresh s (x ∷ xs) (n ∷ ns)
    → update s.node_of x (spare fresh s) u ≢ 0
    → has (update s.node_of x (spare fresh s) u) (s.run_queue.head ∷ n ∷ ns) ≡ false
taken-owns fresh x n u s xs ns i o = elim (Bool-cases (u == x)) [
  | inl t ↦
      let now : update s.node_of x (spare fresh s) u ≡ spare fresh s = rw t refl in
      subst (λ a. has a (s.run_queue.head ∷ n ∷ ns) ≡ false) (sym now) i.distinct.0
  | inr t ↦
      let same : update s.node_of x (spare fresh s) u ≡ s.node_of u = rw t refl in
      subst (λ a. has a (s.run_queue.head ∷ n ∷ ns) ≡ false) (sym same)
        (let out = i.owns u (λ z. o (same ∙ z)) in ground (arith, out))
]

-- No other uThread owns the spare node.
spare-apart :
    (fresh u : ℕ) (s : Scheduler) (xs nodes : List ℕ)
    → Holds fresh s xs nodes
    → spare fresh s ≢ s.node_of u
spare-apart fresh u s xs nodes i e =
    let out = i.owns u (λ z. i.spare_ne (e ∙ z)) in ground (arith, out)

taken-one_owner :
    (fresh x n u v : ℕ) (s : Scheduler) (xs ns : List ℕ)
    → Holds fresh s (x ∷ xs) (n ∷ ns)
    → update s.node_of x (spare fresh s) u ≢ 0
    → update s.node_of x (spare fresh s) u ≡ update s.node_of x (spare fresh s) v
    → u ≡ v
taken-one_owner fresh x n u v s xs ns i o e = elim (Bool-cases (u == x)) [
  | inl t ↦ elim (Bool-cases (v == x)) [
    | inl t' ↦ ground arith
    | inr t' ↦ absurd (spare-apart fresh v s (x ∷ xs) (n ∷ ns) i (sym (rw t refl) ∙ e ∙ rw t' refl))
  ]
  | inr t ↦ elim (Bool-cases (v == x)) [
    | inl t' ↦
        absurd (spare-apart fresh u s (x ∷ xs) (n ∷ ns) i (sym (rw t' refl) ∙ sym e ∙ rw t refl))
    | inr t' ↦ i.one_owner u v (λ z. o (rw t z)) (sym (rw t refl) ∙ e ∙ rw t' refl)
  ]
]

taken-outside :
    (fresh x n u : ℕ) (s : Scheduler) (xs ns : List ℕ)
    → Holds fresh s (x ∷ xs) (n ∷ ns)
    → (update s.node_of x (spare fresh s) u == 0) ≡ has u xs
taken-outside fresh x n u s xs ns i = elim (Bool-cases (u == x)) [
  | inl t ↦
      let same : u ≡ x = ground arith in
      let ne : (spare fresh s == 0) ≡ false = ground (arith, i.spare_ne) in
      rw (t, ne, same) (sym i.uthreads.0)
  | inr t ↦ rw t (i.outside u ∙ rw t refl)
]

taken-Holds :
    (fresh x n : ℕ) (s : Scheduler) (xs ns : List ℕ)
    → Holds fresh s (x ∷ xs) (n ∷ ns)
    → Holds fresh (taken fresh x s) xs ns
unfolding taken spare
taken-Holds fresh x n s xs ns i =
    let q = s.run_queue in
    let kept : spare fresh (taken fresh x s) ≡ q.head =
      let ne : (q.head == 0) ≡ false = ground (arith, i.chain.1) in rw ne refl in
    let at : q.next q.head ≡ n = i.chain.2.0 in
    let all : spare fresh (taken fresh x s) ∷ q.next q.head ∷ ns ≡ q.head ∷ n ∷ ns =
      rw (kept, at) refl in
    record {
      chain = subst (λ a. Seg q.next (q.next q.head) (a ∷ ns) 0) (sym at) i.chain.2;
      tail = subst (λ a. q.tail ≡ last_of a ns) (sym at) i.tail;
      states =
          map-update q.state q.head x ns (ground (arith, i.distinct.1.0))
          ∙ ground (arith, i.states);
      marked = λ e. absurd (ground (arith, i.marked e));
      distinct = subst Distinct (sym all) i.distinct.1;
      spare_ne = λ e. i.chain.1 (sym kept ∙ e);
      owns = λ u o.
          subst (λ l. has (update s.node_of x (spare fresh s) u) l ≡ false) (sym all)
            (taken-owns fresh x n u s xs ns i o);
      one_owner = λ u v o e. taken-one_owner fresh x n u v s xs ns i o e;
      uthreads = i.uthreads.1;
      outside = λ u. taken-outside fresh x n u s xs ns i;
    }

pub switch-nil :
    (fresh : ℕ) (is_yield : Bool) (s : Scheduler) (nodes : List ℕ)
    → Holds fresh s [] nodes
    → (non_blocking_switch fresh is_yield s
        ≡ some (if is_yield then none_to_run else main_ut, mark s))
      × Holds fresh (mark s) [] nodes
unfolding non_blocking_switch after_pop mark
switch-nil fresh is_yield s nodes i = let (e, h) = pop-nil fresh s nodes i in (rw e refl, h)

pop-cons :
    (fresh x n : ℕ) (s : Scheduler) (xs ns : List ℕ)
    → Holds fresh s (x ∷ xs) (n ∷ ns)
    → pop s.run_queue ≡ some (s.run_queue.head, (taken fresh x s).run_queue)
unfolding pop taken
pop-cons fresh x n s xs ns i =
    let q = s.run_queue in
    let behind : (q.next q.head == 0) ≡ false = ground (arith, i.chain.2) in
    let first : q.state (q.next q.head) ≡ x = ap q.state i.chain.2.0 ∙ ground (arith, i.states) in
    rw (behind, first) refl

pub switch-cons :
    (fresh x n : ℕ) (is_yield : Bool) (s : Scheduler) (xs ns : List ℕ)
    → Holds fresh s (x ∷ xs) (n ∷ ns)
    → (non_blocking_switch fresh is_yield s ≡ some (ut_to_run x, taken fresh x s))
      × Holds fresh (taken fresh x s) xs ns
unfolding non_blocking_switch after_pop take_node taken spare
switch-cons fresh x n is_yield s xs ns i =
    let ne : (s.run_queue.head == 0) ≡ false = ground (arith, i.chain.1) in
    let q = s.run_queue in
    let at : update q.state q.head x q.head ≡ x = ground arith in
    (rw (pop-cons fresh x n s xs ns i, ne, at) refl, taken-Holds fresh x n s xs ns i)
