-- ===== src/Cluster/Tests.antt =====
-- A cluster of three kThreads.
use u_threads.Base.{
  ℕ, ◌<◌, ◌≡◌, ◌%◌, ◌^◌, Option, ◌+◌, refl, List, [], ◌∷◌, some, none, arith, if◌then◌else◌, ◌==◌,
  get_elem?,
}
use u_threads.Cluster.{Global, Cluster, add_kthread, assign_next, assign_exchange, no_clusters}
use u_threads.Cluster.Ids.{nth_cluster, nth_cluster-id}
use u_threads.Cluster.Assign.{
  assign_many, assign_many-round_robin, Reach, start, add, load, exchange, assign_exchange-in_range,
}

abbrev one_kthread : Cluster
one_kthread = record { id = 0; kthreads = 8 ∷ []; kt_last = 0; number_of_kthreads = 1 }

abbrev three : Cluster
three = record { id = 0; kthreads = 8 ∷ 16 ∷ 24 ∷ []; kt_last = 2; number_of_kthreads = 3 }

nth_cluster-id_case :
    (c : Cluster) × (g' : Global) × (nth_cluster 65536 no_clusters ≡ some (c, g'))
    × (c.id ≡ 65536 % 2 ^ 16)
nth_cluster-id_case = nth_cluster-id 65536

five_assigned :
    (kts : List ℕ) × (c' : Cluster) × (assign_many 5 three ≡ some (kts, c'))
    × ((i : ℕ) → i < 5 → get_elem? kts i ≡ get_elem? three.kthreads ((2 + i) % 3))
five_assigned = assign_many-round_robin 5 three (omega arith)

abbrev two : Cluster
two = record { id = 0; kthreads = 8 ∷ 16 ∷ []; kt_last = 1; number_of_kthreads = 2 }

abbrev one_loaded : ℕ → Option ℕ
one_loaded q = if q == 3 then some 1 else none

two-Reach : Reach 8 two (λ q. if q == 3 then none else one_loaded q)
unfolding assign_next add_kthread assign_exchange
two-Reach =
    exchange 3 1 (record two { kt_last = 0 }) one_loaded refl
      (load 3 1 (record two { kt_last = 0 }) (λ _. none) refl
        (add 16 one_kthread (λ _. none) (start one_kthread refl refl)))

assign_exchange-in_range_case : (kt : ℕ) × ((assign_exchange 0 two).0 ≡ some kt)
assign_exchange-in_range_case =
    assign_exchange-in_range 8 0 two (λ q. if q == 3 then none else one_loaded q) two-Reach
