-- ===== src/Scheduler01/Bulk.antt =====
-- src/runtime/schedulers/Scheduler_01.h: `prepareBulkPush` and `bulkPush`, with which the poller gives
-- the uThreads that it unblocked to their clusters.
use u_threads.Base.{
  ℕ, ◌+◌, ◌≡◌, refl, sym, ◌∙◌, inl, inr, true, List, [], ◌∷◌, ◌++◌, ltb, Option, none, some, ◌>>=◌,
  ◌==◌, if◌then◌else◌, has, length, length-append, update, append-nil, append_assoc, arith,
  Bool-cases,
}
use u_threads.Scheduler01.{Scheduler, push_many}
use u_threads.Scheduler01.Switch.{is_empty}

-- A cluster: its `ClusterVar` and its scheduler.
pub record Cluster : Type 0 where
  pub bulk_queue : List ℕ
  pub bulk_counter : ℕ
  pub scheduler : Scheduler

-- `prepareBulkPush` of a uThread whose cluster is `c`.
unfoldable pub prepare_bulk_push : ℕ → ℕ → (ℕ → Cluster) → ℕ → Cluster
prepare_bulk_push c ut s = update s c (record (s c) {
  bulk_queue = (s c).bulk_queue ++ ut ∷ [];
  bulk_counter = (s c).bulk_counter + 1;
})

-- `schedule` of many uThreads: the assertion, and the push, which empties the other queue.
unfoldable pub schedule_many : Cluster → Option Cluster
unfolding is_empty push_many
schedule_many c =
    if is_empty c.bulk_queue
    then none
    else some (record c {
      bulk_queue = [];
      scheduler = push_many c.bulk_queue c.bulk_counter c.scheduler;
    })

-- `bulkPush(cluster)`.
unfoldable pub bulk_push_cluster : Cluster → Option Cluster
unfolding schedule_many
bulk_push_cluster c =
    if ltb 0 c.bulk_counter
    then (do c' ← schedule_many c; some (record c' { bulk_counter = 0 }))
    else some c

-- `bulkPush()`, over the list of clusters.
unfoldable pub bulk_push : List ℕ → (ℕ → Cluster) → Option (ℕ → Cluster)
unfolding bulk_push_cluster
bulk_push [] s = some s
bulk_push (c ∷ cs) s =
    let rest = bulk_push cs in do c' ← bulk_push_cluster (s c); rest (update s c c')

unfoldable pub prepare_all : List (ℕ × ℕ) → (ℕ → Cluster) → ℕ → Cluster
unfolding prepare_bulk_push
prepare_all [] s = s
prepare_all ((c, ut) ∷ uts) s = prepare_all uts (prepare_bulk_push c ut s)

-- The uThreads of the list whose cluster is `c`.
abbrev pub members : ℕ → List (ℕ × ℕ) → List ℕ
members c [] = []
members c ((home, ut) ∷ uts) = if c == home then ut ∷ members c uts else members c uts

-- What is scheduled on a cluster at once: nothing if there is nothing.
abbrev pub pushed_at_once : List ℕ → Scheduler → Scheduler
pushed_at_once [] s = s
pushed_at_once (ut ∷ uts) s = push_many (ut ∷ uts) (length (ut ∷ uts)) s

abbrev Counted : Cluster → Type 0
Counted c = c.bulk_counter ≡ length c.bulk_queue

prepare_all-members :
    (uts : List (ℕ × ℕ)) (s : ℕ → Cluster) (c : ℕ)
    → Counted (s c)
    → Counted (prepare_all uts s c)
      × ((prepare_all uts s c).bulk_queue ≡ (s c).bulk_queue ++ members c uts)
      × ((prepare_all uts s c).scheduler ≡ (s c).scheduler)
unfolding prepare_all prepare_bulk_push
prepare_all-members [] s c i = (i, sym (append-nil (s c).bulk_queue), refl)
prepare_all-members ((home, ut) ∷ uts) s c i =
    let s' = prepare_bulk_push home ut s in
    let more = length-append (s home).bulk_queue (ut ∷ []) in
    let (i', b, r) = prepare_all-members uts s' c (ground arith) in
    elim (Bool-cases (c == home)) [
      | inl e ↦
          let assoc = append_assoc (s c).bulk_queue (ut ∷ []) (members c uts) in
          (i', ground (arith, assoc), ground arith)
      | inr e ↦ (i', ground arith, ground arith)
    ]

abbrev flushed : Cluster → Cluster
flushed c = record {
  bulk_queue = [];
  bulk_counter = 0;
  scheduler = pushed_at_once c.bulk_queue c.scheduler;
}

flush-cons :
    (uts : List ℕ) (c : Cluster)
    → c.bulk_queue ≡ uts
    → Counted c
    → bulk_push_cluster c ≡ some (flushed c)
unfolding bulk_push_cluster schedule_many is_empty
flush-cons [] c q e = let z : c.bulk_counter ≡ 0 = ground (arith, e) in rw (z, q) refl
flush-cons (ut ∷ uts) c q e =
    let n : c.bulk_counter ≡ length (ut ∷ uts) = ground (arith, e) in
    let more : ltb 0 (length (ut ∷ uts)) ≡ true = ground arith in rw (n, q, more) refl

bulk_push_cluster-flushed : (c : Cluster) → Counted c → bulk_push_cluster c ≡ some (flushed c)
bulk_push_cluster-flushed c e = flush-cons c.bulk_queue c refl e

abbrev AfterPush : List ℕ → (ℕ → Cluster) → (ℕ → Cluster) → Type 0
AfterPush cs s s' = (c : ℕ) → s' c ≡ (if has c cs then flushed (s c) else s c)

flushed-twice :
    (c k : ℕ) (cs : List ℕ) (s : ℕ → Cluster)
    → let s1 : ℕ → Cluster = update s c (flushed (s c)) in
      (if has k cs then flushed (s1 k) else s1 k) ≡ (if has k (c ∷ cs) then flushed (s k) else s k)
flushed-twice c k cs s = elim (Bool-cases (k == c)) [
  | inl t ↦
      let same : k ≡ c = ground arith in
      elim (Bool-cases (has c cs)) [ inl h ↦ rw (t, same, h) refl | inr h ↦ rw (t, same, h) refl ]
  | inr t ↦ rw t refl
]

bulk_push-AfterPush :
    (cs : List ℕ) (s : ℕ → Cluster)
    → ((c : ℕ) → Counted (s c))
    → (s' : ℕ → Cluster) × (bulk_push cs s ≡ some s') × AfterPush cs s s'
unfolding bulk_push
bulk_push-AfterPush [] s i = (s, refl, λ c. refl)
bulk_push-AfterPush (c ∷ cs) s i =
    let e = bulk_push_cluster-flushed (s c) (i c) in
    let s1 : ℕ → Cluster = update s c (flushed (s c)) in
    let (s', e', after) =
      bulk_push-AfterPush cs s1
        (λ k. elim (Bool-cases (k == c)) [ inl t ↦ rw t refl | inr t ↦ rw t (i k) ]) in
    (s', rw e e', λ k. after k ∙ flushed-twice c k cs s)

-- The uThreads that a poll prepares are scheduled on their clusters, all those of a cluster at once and
-- in their order: with nothing prepared before, each cluster of the list gets one push of its uThreads,
-- or none if it has none, and has nothing prepared afterwards; and no assertion fails.
pub bulk_push-members :
    (cs : List ℕ) (uts : List (ℕ × ℕ)) (s : ℕ → Cluster)
    → ((c : ℕ) → ((s c).bulk_queue ≡ []) × ((s c).bulk_counter ≡ 0))
    → (s' : ℕ → Cluster) × (bulk_push cs (prepare_all uts s) ≡ some s')
      × ((c : ℕ)
          → has c cs ≡ true
          → ((s' c).scheduler ≡ pushed_at_once (members c uts) (s c).scheduler)
            × ((s' c).bulk_queue ≡ [])
            × ((s' c).bulk_counter ≡ 0))
bulk_push-members cs uts s z =
    let none_yet = λ (c : ℕ). prepare_all-members uts s c (ground (arith, z c)) in
    let (s', e, after) = bulk_push-AfterPush cs (prepare_all uts s) (λ c. (none_yet c).0) in
    (
      s',
      e,
      λ c h.
          let (i, q, sc) = none_yet c in
          let at : s' c ≡ flushed (prepare_all uts s c) = rw (after c, h) refl in
          let all : (prepare_all uts s c).bulk_queue ≡ members c uts = ground (arith, z c) in
          rw (at, all, sc) (refl, refl, refl),
    )
