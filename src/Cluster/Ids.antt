-- ===== src/Cluster/Ids.antt =====
-- The numbers of the clusters.
use u_threads.Base.{
  ℕ, zero, suc, ◌+◌, ◌-◌, ◌^◌, ◌%◌, ◌<◌, ◌≡◌, refl, true, [], Option, some, ltb, ◌>>=◌, arith,
}
use u_threads.Cluster.{Global, Cluster, no_clusters, create_cluster}

-- The `n + 1`-th cluster that a program creates.
pub nth_cluster : ℕ → Global → Option (Cluster × Global)
unfolding create_cluster
nth_cluster zero g = create_cluster g
nth_cluster (suc n) g = let rest = nth_cluster n in create_cluster g >>= λ r. rest r.1

nth_from :
    (n : ℕ) (g : Global)
    → g.master_id < 2 ^ 16
    → (c : Cluster) × (g' : Global) × (nth_cluster n g ≡ some (c, g'))
      × (c.id ≡ (g.master_id + n) % 2 ^ 16)
unfolding nth_cluster create_cluster
nth_from zero g small =
    let ok : ltb (g.master_id + 1) (2 ^ 64 - 1) ≡ true = ground arith in
    (
      record { id = g.master_id; kthreads = []; kt_last = 0; number_of_kthreads = 0 },
      record { master_id = (g.master_id + 1) % 2 ^ 16; created = g.created + 1 },
      rw ok refl,
      omega arith,
    )
nth_from (suc n) g small =
    let ok : ltb (g.master_id + 1) (2 ^ 64 - 1) ≡ true = ground arith in
    let g1 : Global = record { master_id = (g.master_id + 1) % 2 ^ 16; created = g.created + 1 } in
    let (c, g', e, i) = nth_from n g1 (omega arith) in (c, g', rw (ok, e) refl, omega (arith, i))

-- Every cluster is created, and clusters whose places differ by 2^16 have the same number.
pub nth_cluster-id :
    (n : ℕ)
    → (c : Cluster) × (g' : Global) × (nth_cluster n no_clusters ≡ some (c, g'))
      × (c.id ≡ n % 2 ^ 16)
unfolding no_clusters
nth_cluster-id n =
    let (c, g', e, i) = nth_from n no_clusters (omega arith) in (c, g', e, omega (arith, i))
