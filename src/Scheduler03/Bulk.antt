-- ===== src/Scheduler03/Bulk.antt =====
-- src/runtime/schedulers/Scheduler_03.h: `prepareBulkPush` and `bulkPush`, with which the poller gives
-- the uThreads that it unblocked to their kThreads. The queues are read as lists here.
use u_threads.Base.{
  ℕ, ◌+◌, ◌≡◌, refl, sym, subst, ◌∙◌, inl, inr, Bool, true, false, ◌||◌, List, [], ◌∷◌, ◌++◌, ltb,
  ◌==◌, if◌then◌else◌, has, length, length-append, update, append-nil, append_assoc, arith,
  Bool-cases,
}

-- What `KTVar` adds to a kThread, beside its run queue.
pub record Bulk : Type 0 where
  pub bulk_queue : List ℕ
  pub bulk_counter : ℕ
  pub run_queue : List ℕ

-- `prepareBulkPush` of a uThread whose home is the kThread `home`.
pub prepare_bulk_push : ℕ → ℕ → (ℕ → Bulk) → ℕ → Bulk
prepare_bulk_push home ut s = update s home (record (s home) {
  bulk_queue = (s home).bulk_queue ++ ut ∷ [];
  bulk_counter = (s home).bulk_counter + 1;
})

-- The body of the loop over the kThreads; the counter is set in any case.
pub push_one : Bulk → Bulk
push_one b =
    if ltb 0 b.bulk_counter
    then record { bulk_queue = []; bulk_counter = 0; run_queue = b.run_queue ++ b.bulk_queue }
    else record b { bulk_counter = 0 }

-- `bulkPush(cluster)` and `bulkPush()`.
pub bulk_push_cluster : List ℕ → (ℕ → Bulk) → ℕ → Bulk
unfolding push_one
bulk_push_cluster [] s = s
bulk_push_cluster (k ∷ kts) s = bulk_push_cluster kts (update s k (push_one (s k)))

pub bulk_push : List (List ℕ) → (ℕ → Bulk) → ℕ → Bulk
unfolding bulk_push_cluster
bulk_push [] s = s
bulk_push (kts ∷ clusters) s = bulk_push clusters (bulk_push_cluster kts s)

pub prepare_all : List (ℕ × ℕ) → (ℕ → Bulk) → ℕ → Bulk
unfolding prepare_bulk_push
prepare_all [] s = s
prepare_all ((home, ut) ∷ uts) s = prepare_all uts (prepare_bulk_push home ut s)

-- The uThreads of the list whose home is `k`.
pub homed : ℕ → List (ℕ × ℕ) → List ℕ
homed k [] = []
homed k ((home, ut) ∷ uts) = if k == home then ut ∷ homed k uts else homed k uts

abbrev pub has_kthread : ℕ → List (List ℕ) → Bool
has_kthread k [] = false
has_kthread k (kts ∷ clusters) = has k kts || has_kthread k clusters

Counted : Bulk → Type 0
Counted b = b.bulk_counter ≡ length b.bulk_queue

prepare_all-homed :
    (uts : List (ℕ × ℕ)) (s : ℕ → Bulk) (k : ℕ)
    → Counted (s k)
    → Counted (prepare_all uts s k)
      × ((prepare_all uts s k).bulk_queue ≡ (s k).bulk_queue ++ homed k uts)
      × ((prepare_all uts s k).run_queue ≡ (s k).run_queue)
unfolding prepare_all prepare_bulk_push Counted homed
prepare_all-homed [] s k c = (c, sym (append-nil (s k).bulk_queue), refl)
prepare_all-homed ((home, ut) ∷ uts) s k c =
    let s' = prepare_bulk_push home ut s in
    let more = length-append (s home).bulk_queue (ut ∷ []) in
    let (c', b, r) = prepare_all-homed uts s' k (ground arith) in
    elim (Bool-cases (k == home)) [
      | inl e ↦
          let assoc = append_assoc (s k).bulk_queue (ut ∷ []) (homed k uts) in
          (c', ground (arith, assoc), ground arith)
      | inr e ↦ (c', ground arith, ground arith)
    ]

abbrev Pushed : Bulk → Bulk → Type 0
Pushed b b' =
    (b'.bulk_queue ≡ []) × (b'.run_queue ≡ b.run_queue ++ b.bulk_queue) × (b'.bulk_counter ≡ 0)

push_one-Pushed : (b : Bulk) (l : List ℕ) → b.bulk_queue ≡ l → Counted b → Pushed b (push_one b)
unfolding Counted push_one
push_one-Pushed b [] e c =
    let z : ltb 0 b.bulk_counter ≡ false = ground arith in
    let nil = append-nil b.run_queue in rw z (e, ground (arith, nil), refl)
push_one-Pushed b (x ∷ xs) e c =
    let p : ltb 0 b.bulk_counter ≡ true = ground arith in rw p (refl, refl, refl)

Pushed-twice : (a b c : Bulk) → Pushed a b → Pushed b c → Pushed a c
Pushed-twice a b c (p, q, z) (p', q', z') =
    let nil = append-nil b.run_queue in (p', ground (arith, nil), z')

Pushed-Counted : (a b : Bulk) → Pushed a b → Counted b
unfolding Counted
Pushed-Counted a b (p, q, z) = ground arith

cluster-Pushed :
    (kts : List ℕ) (s : ℕ → Bulk) (k : ℕ)
    → Counted (s k)
    → (has k kts ≡ true → Pushed (s k) (bulk_push_cluster kts s k))
      × (has k kts ≡ false → bulk_push_cluster kts s k ≡ s k)
unfolding bulk_push_cluster
cluster-Pushed [] s k c = (λ h. ground arith, λ h. refl)
cluster-Pushed (j ∷ js) s k c =
    let s1 : ℕ → Bulk = update s j (push_one (s j)) in
    let first = push_one-Pushed (s k) (s k).bulk_queue refl c in
    elim (Bool-cases (k == j)) [
      | inl e ↦
          let at : s1 k ≡ push_one (s k) = let same : k ≡ j = ground arith in rw (e, same) refl in
          let p1 : Pushed (s k) (s1 k) = subst (λ b. Pushed (s k) b) (sym at) first in
          let (pushed, kept) = cluster-Pushed js s1 k (Pushed-Counted (s k) (s1 k) p1) in
          (
            λ h. elim (Bool-cases (has k js)) [
              | inl t ↦ Pushed-twice (s k) (s1 k) (bulk_push_cluster js s1 k) p1 (pushed t)
              | inr f ↦ subst (λ b. Pushed (s k) b) (sym (kept f)) p1
            ],
            λ h. ground arith,
          )
      | inr e ↦
          let at : s1 k ≡ s k = rw e refl in
          let (pushed, kept) = cluster-Pushed js s1 k (rw at c) in
          (
            λ h. subst (λ b. Pushed b (bulk_push_cluster js s1 k)) at (pushed (ground arith)),
            λ h. kept (ground arith) ∙ at,
          )
    ]

all-Pushed :
    (clusters : List (List ℕ)) (s : ℕ → Bulk) (k : ℕ)
    → Counted (s k)
    → (has_kthread k clusters ≡ true → Pushed (s k) (bulk_push clusters s k))
      × (has_kthread k clusters ≡ false → bulk_push clusters s k ≡ s k)
unfolding bulk_push
all-Pushed [] s k c = (λ h. ground arith, λ h. refl)
all-Pushed (kts ∷ clusters) s k c =
    let s1 = bulk_push_cluster kts s in
    let (pushed, kept) = cluster-Pushed kts s k c in
    elim (Bool-cases (has k kts)) [
      | inl e ↦
          let p1 = pushed e in
          let (pushed', kept') = all-Pushed clusters s1 k (Pushed-Counted (s k) (s1 k) p1) in
          (
            λ h. elim (Bool-cases (has_kthread k clusters)) [
              | inl t ↦ Pushed-twice (s k) (s1 k) (bulk_push clusters s1 k) p1 (pushed' t)
              | inr f ↦ subst (λ b. Pushed (s k) b) (sym (kept' f)) p1
            ],
            λ h. ground arith,
          )
      | inr e ↦
          let at : s1 k ≡ s k = kept e in
          let (pushed', kept') = all-Pushed clusters s1 k (subst Counted (sym at) c) in
          (
            λ h. subst (λ b. Pushed b (bulk_push clusters s1 k)) at (pushed' (ground arith)),
            λ h. kept' (ground arith) ∙ at,
          )
    ]

-- The uThreads that a poll prepares reach the run queues of their homes, each in order and once: a
-- kThread of some cluster, with nothing prepared before, has them at the end of its run queue.
pub bulk_push-homed :
    (clusters : List (List ℕ)) (uts : List (ℕ × ℕ)) (s : ℕ → Bulk) (k : ℕ)
    → ((s k).bulk_queue ≡ []) × ((s k).bulk_counter ≡ 0)
    → has_kthread k clusters ≡ true
    → ((bulk_push clusters (prepare_all uts s) k).run_queue ≡ (s k).run_queue ++ homed k uts)
      × ((bulk_push clusters (prepare_all uts s) k).bulk_queue ≡ [])
unfolding Counted
bulk_push-homed clusters uts s k (b, z) h =
    let (c, q, r) = prepare_all-homed uts s k (ground arith) in
    let (e, e', z') = (all-Pushed clusters (prepare_all uts s) k c).0 h in (ground arith, e)
