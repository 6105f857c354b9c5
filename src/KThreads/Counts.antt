-- ===== src/KThreads/Counts.antt =====
-- src/runtime/kThread.cpp: what the counters count after any sequence of kThreads that come and go.
use u_threads.Base.{
  ℕ, ◌+◌, ◌-◌, ◌^◌, ◌%◌, ◌<◌, ◌≡◌, refl, sym, ◌∙◌, inl, inr, true, false, Bool-cases, List, [], ◌∷◌,
  ◌++◌, append-nil, append_laws, some, ltb, ◌==◌, update, incr_word, decr_word, arith, Ensures,
  bind-Ensures, Ensures-some, Ensures-imp,
}
use u_threads.Cluster.{add_kthread}
use u_threads.KThreads.{
  Kernel, new_kthread, make_uthread, create_main_ut, initial_synchronization, initialize,
  initialize_main_ut, run, add_to_cluster, make_kthread, make_kthread_func, destroy_kthread,
}
use u_threads.KThreads.Events.{
  Event, made, made_func, ran, ended, run_event, run_events, makes, ends, joins, adds, leaves, sum,
  all_joins,
}

-- The counters after the events, modulo their range: `x` ends and `m` constructions, and so on.
pub record Counted (w w' : Kernel) (m x : ℕ) (a l : ℕ → ℕ) (ks : ℕ → List ℕ) : Type 0 where
  pub kts : (w'.total_kts + x) % 2 ^ 32 ≡ (w.total_kts + m) % 2 ^ 32
  pub numbers :
      (c : ℕ)
      → ((w'.clusters c).number_of_kthreads + l c) % 2 ^ 32
        ≡ ((w.clusters c).number_of_kthreads + a c) % 2 ^ 32
  pub vectors : (c : ℕ) → (w'.clusters c).kthreads ≡ (w.clusters c).kthreads ++ ks c
  pub uts : w.total_uts < 2 ^ 64 → w'.total_uts ≡ w.total_uts

abbrev EventCounted : Event → Kernel → Kernel → Type 0
EventCounted e w w' =
    Counted w w' (makes e) (ends e) (λ c. adds c e) (λ c. leaves c e) (λ c. joins c e)

initial_synchronization-next :
    (w : Kernel)
    → initial_synchronization w ≡ some (record w { total_kts = (w.total_kts + 1) % 2 ^ 32 })
unfolding initial_synchronization
initial_synchronization-next w =
    let fits : ltb (2 ^ 64 - 1) ((w.total_kts + 1) % 2 ^ 32) ≡ false = ground arith in rw fits refl

incr-decr : (n : ℕ) → n < 2 ^ 64 → decr_word (incr_word n) ≡ n
unfolding decr_word incr_word
incr-decr n lt = omega arith

destroy_kthread-Counted :
    (kt cluster : ℕ) (w : Kernel)
    → (w.kts kt).local_cluster ≡ cluster
    → EventCounted (ended kt cluster) w (destroy_kthread kt w)
unfolding destroy_kthread
destroy_kthread-Counted kt cluster w e = record {
  kts = omega arith;
  numbers = λ c. elim (Bool-cases (c == cluster)) [
    | inl t ↦ let same : c ≡ cluster = ground arith in rw (e, t, same) (omega arith)
    | inr t ↦ rw (e, t) refl
  ];
  vectors = λ c. elim (Bool-cases (c == cluster)) [
    | inl t ↦
        let same : c ≡ cluster = ground arith in
        rw (e, t, same) (sym (append-nil (w.clusters cluster).kthreads))
    | inr t ↦ rw (e, t) (sym (append-nil (w.clusters c).kthreads))
  ];
  uts = λ lt. refl;
}

-- Counts add up.
Counted-then :
    (w w1 w2 : Kernel) (m x m' x' : ℕ) (a l a' l' : ℕ → ℕ) (ks ks' : ℕ → List ℕ)
    → Counted w w1 m x a l ks
    → Counted w1 w2 m' x' a' l' ks'
    → Counted w w2 (m + m') (x + x') (λ c. a c + a' c) (λ c. l c + l' c) (λ c. ks c ++ ks' c)
Counted-then w w1 w2 m x m' x' a l a' l' ks ks' i j = record {
  kts = omega (arith, i.kts, j.kts);
  numbers = λ c. omega (arith, i.numbers c, j.numbers c);
  vectors = λ c. simp (append_laws, j.vectors c, i.vectors c) refl;
  uts = λ lt. j.uts (rw (i.uts lt) lt) ∙ i.uts lt;
}

run_event-Counted : (e : Event) (w : Kernel) → Ensures (EventCounted e w) (run_event e w)
unfolding run_event make_kthread make_kthread_func add_to_cluster add_kthread run initialize
    initialize_main_ut create_main_ut make_uthread destroy_kthread
run_event-Counted (made kt cluster scheduler) w = rw (initial_synchronization-next _) (record {
  kts = omega arith;
  numbers = λ c. elim (Bool-cases (c == cluster)) [
    | inl t ↦ let same : c ≡ cluster = ground arith in rw (t, same) (omega arith)
    | inr t ↦ rw t refl
  ];
  vectors = λ c. elim (Bool-cases (c == cluster)) [
    | inl t ↦ let same : c ≡ cluster = ground arith in rw (t, same) refl
    | inr t ↦ rw t (sym (append-nil (w.clusters c).kthreads))
  ];
  uts = λ lt. refl;
})
run_event-Counted (made_func kt cluster scheduler) w = rw (initial_synchronization-next _) (record {
  kts = omega arith;
  numbers = λ c. refl;
  vectors = λ c. sym (append-nil (w.clusters c).kthreads);
  uts = λ lt. refl;
})
run_event-Counted (ran kt ut) w = record {
  kts = refl;
  numbers = λ c. refl;
  vectors = λ c. sym (append-nil (w.clusters c).kthreads);
  uts = λ lt. incr-decr w.total_uts lt;
}
run_event-Counted (ended kt cluster) w = elim (Bool-cases ((w.kts kt).local_cluster == cluster)) [
  | inl t ↦ rw t (destroy_kthread-Counted kt cluster w (ground arith))
  | inr t ↦ rw t tt
]

-- The counts of a sequence of events.
abbrev pub EventsCounted : List Event → Kernel → Kernel → Type 0
EventsCounted es w w' =
    Counted w w' (sum makes es) (sum ends es) (λ c. sum (adds c) es) (λ c. sum (leaves c) es)
      (λ c. all_joins c es)

run_events-Counted : (es : List Event) (w : Kernel) → Ensures (EventsCounted es w) (run_events es w)
unfolding run_events
run_events-Counted [] w = record {
  kts = refl;
  numbers = λ c. refl;
  vectors = λ c. sym (append-nil (w.clusters c).kthreads);
  uts = λ lt. refl;
}
run_events-Counted (e ∷ es) w =
    bind-Ensures (EventsCounted (e ∷ es) w) (EventCounted e w) (run_event e w) (run_events es)
      (run_event-Counted e w)
      (λ w1 i.
        Ensures-imp (EventsCounted es w1) (EventsCounted (e ∷ es) w) (run_events es w1)
          (run_events-Counted es w1) (λ w2 j. Counted-then w w1 w2 _ _ _ _ _ _ _ _ _ _ i j))

-- Whatever kThreads are made, run and end, modulo 2^32: `totalNumberofKTs` grows by the kThreads that
-- were made and shrinks by those that ended; `numberOfkThreads` of a cluster grows by those made for it
-- without a function, but shrinks by all that ended in it. The kThread vector of a cluster grows by the
-- former and never shrinks, and default uThreads are not counted in `totalNumberofUTs`.
pub events-Counted :
    (es : List Event) (w w' : Kernel) → run_events es w ≡ some w' → EventsCounted es w w'
events-Counted es w w' e =
    Ensures-some (EventsCounted es w) (run_events es w) w' (run_events-Counted es w) e

made_func-next :
    (kt cluster scheduler : ℕ) (w : Kernel)
    → (w' : Kernel) × (run_event (made_func kt cluster scheduler) w ≡ some w')
      × ((w'.kts kt).local_cluster ≡ cluster)
unfolding run_event make_kthread_func new_kthread
made_func-next kt cluster scheduler w =
    let w1 = record w { kts = update w.kts kt (new_kthread cluster scheduler) } in
    (
      record w1 { total_kts = (w1.total_kts + 1) % 2 ^ 32 },
      initial_synchronization-next w1,
      ground arith,
    )

ended-next :
    (kt cluster : ℕ) (w : Kernel)
    → (w.kts kt).local_cluster ≡ cluster
    → run_event (ended kt cluster) w ≡ some (destroy_kthread kt w)
unfolding run_event
ended-next kt cluster w e =
    let t : ((w.kts kt).local_cluster == cluster) ≡ true = ground arith in rw t refl

one_fewer :
    (a b l m : ℕ)
    → l ≡ 1
    → m ≡ 0
    → (a + l) % 2 ^ 32 ≡ (b + m) % 2 ^ 32
    → (a + 1) % 2 ^ 32 ≡ b % 2 ^ 32
one_fewer a b l m e z h = rw⁻¹ e (h ∙ rw z (omega arith))

-- A kThread that is made with a function and ends leaves its cluster with one kThread fewer than
-- before, modulo 2^32, though the vector of the cluster and the total number are the same.
pub func_kthread-undercounts :
    (kt cluster scheduler : ℕ) (w : Kernel)
    → (w' : Kernel) × (run_events (made_func kt cluster scheduler ∷ ended kt cluster ∷ []) w
        ≡ some w')
      × (((w'.clusters cluster).number_of_kthreads + 1) % 2 ^ 32
          ≡ (w.clusters cluster).number_of_kthreads % 2 ^ 32)
      × (w'.total_kts % 2 ^ 32 ≡ w.total_kts % 2 ^ 32)
      × ((w'.clusters cluster).kthreads ≡ (w.clusters cluster).kthreads)
unfolding run_events
func_kthread-undercounts kt cluster scheduler w =
    let (w1, e1, at) = made_func-next kt cluster scheduler w in
    let es = made_func kt cluster scheduler ∷ ended kt cluster ∷ [] in
    let w' = destroy_kthread kt w1 in
    let e : run_events es w ≡ some w' = rw (e1, ended-next kt cluster w1 at) refl in
    let i = events-Counted es w w' e in
    let one : sum (leaves cluster) es ≡ 1 = ground arith in
    (
      w',
      e,
      one_fewer _ _ _ _ one refl (i.numbers cluster),
      omega (arith, i.kts),
      i.vectors cluster ∙ append-nil _,
    )
