-- ===== src/Scheduler04/Nodes.antt =====
-- src/runtime/schedulers/Scheduler_04.h: who owns the nodes. Each is in the queue, spare, or of a
-- uThread that is not in the queue.
use u_threads.Base.{
  ℕ, ◌+◌, ◌≡◌, ◌≢◌, refl, sym, ap, subst, ◌∙◌, inl, inr, true, false, Bool-cases, List, [], ◌∷◌,
  ◌++◌, map, some, ◌==◌, if◌then◌else◌, update, has, has-apart, Distinct, has-append, Distinct-snoc,
  arith,
}
use u_threads.Intrusive.Seg.{Seg, last_of, Seg-append, Seg-update, Seg-relink, has-last_of}
use u_threads.Scheduler04.{insert, push, Scheduler, schedule}

unfoldable pub spare : ℕ → Scheduler → ℕ
spare fresh s = if s.tmp_node == 0 then fresh else s.tmp_node

-- The nodes behind the head hold the uThreads `xs`; the spare node is the one that the next switch
-- gives away, which `new` returns if none is kept.
pub record Holds (fresh : ℕ) (s : Scheduler) (xs nodes : List ℕ) : Type 0 where
  pub chain : Seg s.run_queue.next s.run_queue.head (s.run_queue.head ∷ nodes) 0
  pub tail : s.run_queue.tail ≡ last_of s.run_queue.head nodes
  pub states : map s.run_queue.state nodes ≡ xs
  pub marked : s.run_queue.marked ≡ true → nodes ≡ []
  pub distinct : Distinct (spare fresh s ∷ s.run_queue.head ∷ nodes)
  pub spare_ne : spare fresh s ≢ 0
  pub owns :
      (u : ℕ)
      → s.node_of u ≢ 0
      → has (s.node_of u) (spare fresh s ∷ s.run_queue.head ∷ nodes) ≡ false
  pub one_owner : (u v : ℕ) → s.node_of u ≢ 0 → s.node_of u ≡ s.node_of v → u ≡ v
  pub uthreads : Distinct xs
  pub outside : (u : ℕ) → (s.node_of u == 0) ≡ has u xs

last_of-snoc : (x y : ℕ) (ys : List ℕ) → y ≡ last_of x (ys ++ y ∷ [])
last_of-snoc x y [] = refl
last_of-snoc x y (z ∷ zs) = last_of-snoc z y zs

pub map-update :
    (f : ℕ → ℕ) (a v : ℕ) (xs : List ℕ) → has a xs ≡ false → map (update f a v) xs ≡ map f xs
map-update f a v [] out = refl
map-update f a v (x ∷ xs) out = ground (arith, map-update f a v xs)

map-snoc : (f : ℕ → ℕ) (xs : List ℕ) (x : ℕ) → map f (xs ++ x ∷ []) ≡ map f xs ++ f x ∷ []
map-snoc f [] x = refl
map-snoc f (y ∷ ys) x = ap (λ zs. f y ∷ zs) (map-snoc f ys x)

-- A node that is not in the queue is linked behind its tail.
push-Seg :
    (next : ℕ → ℕ) (head n : ℕ) (nodes : List ℕ)
    → n ≢ 0
    → has n (head ∷ nodes) ≡ false
    → Distinct (head ∷ nodes)
    → Seg next head (head ∷ nodes) 0
    → Seg (update (update next n 0) (last_of head nodes) n) head (head ∷ nodes ++ n ∷ []) 0
push-Seg next head n nodes ne out d c =
    let next' : ℕ → ℕ = update (update next n 0) (last_of head nodes) n in
    let first : Seg next' head (head ∷ nodes) n =
      Seg-relink (update next n 0) head 0 n head nodes d
        (Seg-update next n 0 head 0 (head ∷ nodes) out c) in
    let apart : (n == last_of head nodes) ≡ false =
      has-apart n (last_of head nodes) (head ∷ nodes) out (has-last_of head nodes) in
    Seg-append next' head n 0 (head ∷ nodes) (n ∷ []) first (refl, ne, rw apart (ground arith))

snoc-eq :
    (ut n : ℕ) (f : ℕ → ℕ) (xs nodes : List ℕ)
    → has n nodes ≡ false
    → map f nodes ≡ xs
    → map (update f n ut) nodes ++ update f n ut n ∷ [] ≡ xs ++ ut ∷ []
snoc-eq ut n f xs nodes off e = rw (map-update f n ut nodes off, e) (ground arith)

push-Seg_tail :
    (next : ℕ → ℕ) (head tail n : ℕ) (nodes : List ℕ)
    → tail ≡ last_of head nodes
    → n ≢ 0
    → has n (head ∷ nodes) ≡ false
    → Distinct (head ∷ nodes)
    → Seg next head (head ∷ nodes) 0
    → Seg (update (update next n 0) tail n) head (head ∷ nodes ++ n ∷ []) 0
push-Seg_tail next head tail n nodes e ne out d c =
    subst (λ t. Seg (update (update next n 0) t n) head (head ∷ nodes ++ n ∷ []) 0) (sym e)
      (push-Seg next head n nodes ne out d c)

-- No uThread but `ut` owns the node that `ut` gives to the queue.
owned-out :
    (fresh u ut : ℕ) (s : Scheduler) (xs nodes : List ℕ)
    → Holds fresh s xs nodes
    → (u == ut) ≡ false
    → s.node_of u ≢ 0
    → has (s.node_of u) (spare fresh s ∷ s.run_queue.head ∷ nodes ++ s.node_of ut ∷ []) ≡ false
owned-out fresh u ut s xs nodes i ne o = elim (Bool-cases (s.node_of u == s.node_of ut)) [
  | inl t ↦ let same : u ≡ ut = i.one_owner u ut o (ground arith) in absurd (ground arith)
  | inr t ↦ ground (
    arith,
    i.owns u o,
    has-append (s.node_of u) (spare fresh s ∷ s.run_queue.head ∷ nodes) (s.node_of ut ∷ []),
  )
]

pub schedule-Holds :
    (fresh ut : ℕ) (s : Scheduler) (xs nodes : List ℕ)
    → Holds fresh s xs nodes
    → has ut xs ≡ false
    → (s' : Scheduler) × (schedule ut s ≡ some s')
      × Holds fresh s' (xs ++ ut ∷ []) (nodes ++ s.node_of ut ∷ [])
      × (s'.sem ≡ (if s.run_queue.marked then s.sem + 1 else s.sem))
unfolding schedule push insert spare
schedule-Holds fresh ut s xs nodes i out =
    let n = s.node_of ut in
    let ne : (n == 0) ≡ false = i.outside ut ∙ out in
    let ne' : n ≢ 0 = ground (arith, ne) in
    let off = i.owns ut ne' in
    let q = s.run_queue in
    (
      record s {
        run_queue = record {
          next = update (update q.next n 0) q.tail n;
          state = update q.state n ut;
          head = q.head;
          tail = n;
          marked = false;
        };
        node_of = update s.node_of ut 0;
        sem = if q.marked then s.sem + 1 else s.sem;
      },
      rw ne refl,
      record {
        chain =
            push-Seg_tail q.next q.head q.tail n nodes i.tail ne' (ground (arith, off)) i.distinct.1
              i.chain;
        tail = last_of-snoc q.head n nodes;
        states =
            map-snoc (update q.state n ut) nodes n
            ∙ snoc-eq ut n q.state xs nodes (ground (arith, off)) i.states;
        marked = λ e. absurd (ground arith);
        distinct = Distinct-snoc n (spare fresh s ∷ q.head ∷ nodes) off i.distinct;
        spare_ne = i.spare_ne;
        owns = λ u o. elim (Bool-cases (u == ut)) [
          | inl t ↦ absurd (o (rw t refl))
          | inr t ↦
              let same : update s.node_of ut 0 u ≡ s.node_of u = rw t refl in
              subst (λ a. has a (spare fresh s ∷ q.head ∷ nodes ++ n ∷ []) ≡ false) (sym same)
                (owned-out fresh u ut s xs nodes i t (λ z. o (same ∙ z)))
        ];
        one_owner = λ u v o e. elim (Bool-cases (u == ut)) [
          | inl t ↦ absurd (o (rw t refl))
          | inr t ↦
              let same : update s.node_of ut 0 u ≡ s.node_of u = rw t refl in
              elim (Bool-cases (v == ut)) [
                | inl t' ↦ absurd (o (e ∙ rw t' refl))
                | inr t' ↦ i.one_owner u v (λ z. o (same ∙ z)) (sym same ∙ e ∙ rw t' refl)
              ]
        ];
        uthreads = Distinct-snoc ut xs out i.uthreads;
        outside = λ u. elim (Bool-cases (u == ut)) [
          | inl t ↦ rw t (ground (arith, has-append u xs (ut ∷ []), t))
          | inr t ↦ rw t (i.outside u ∙ ground (arith, has-append u xs (ut ∷ []), t))
        ];
      },
      refl,
    )
