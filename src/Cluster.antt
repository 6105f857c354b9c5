-- ===== src/Cluster.antt =====
-- src/runtime/Cluster.h and src/runtime/Cluster.cpp: the numbers that clusters get, their kThreads,
-- and the choice of a kThread for a new uThread. A load of `ktLast` and its exchange are steps of
-- their own.
mod Ids
mod Assign
mod Tests
use u_threads.Base.{
  ℕ, ◌+◌, ◌-◌, ◌^◌, ◌%◌, Option, none, some, List, [], ◌∷◌, ◌++◌, length, ltb, ◌==◌, ◌>>=◌,
  get_elem?, if◌then◌else◌,
}

-- The static members: `clusterMasterID`, an `atomic_ushort`, and how many clusters `clusterList` holds.
pub record Global : Type 0 where
  pub master_id : ℕ
  pub created : ℕ

pub record Cluster : Type 0 where
  pub id : ℕ
  pub kthreads : List ℕ
  pub kt_last : ℕ
  pub number_of_kthreads : ℕ

unfoldable pub no_clusters : Global
no_clusters = record { master_id = 0; created = 0 }

-- `initialSynchronization` and the rest of the constructor; `none` is `exit`. `UINTMAX_MAX` is that of
-- 64 bits, and the increment of a `ushort` wraps around.
unfoldable pub create_cluster : Global → Option (Cluster × Global)
create_cluster g =
    if ltb (g.master_id + 1) (2 ^ 64 - 1)
    then some (
      record { id = g.master_id; kthreads = []; kt_last = 0; number_of_kthreads = 0 },
      record { master_id = (g.master_id + 1) % 2 ^ 16; created = g.created + 1 },
    )
    else none

-- `addNewkThread`; the counter is an `atomic_uint`.
unfoldable pub add_kthread : ℕ → Cluster → Cluster
add_kthread kt c = record c {
  kthreads = c.kthreads ++ kt ∷ [];
  number_of_kthreads = (c.number_of_kthreads + 1) % 2 ^ 32;
}

-- `assignkThread`: the value that it will store in `ktLast`. A division by 0 is a fault.
unfoldable pub assign_next : Cluster → Option ℕ
assign_next c = if length c.kthreads == 0 then none else some ((c.kt_last + 1) % length c.kthreads)

-- The exchange and the read of `ktVector`; out of range is a fault.
unfoldable pub assign_exchange : ℕ → Cluster → Option ℕ × Cluster
assign_exchange next c = (get_elem? c.kthreads c.kt_last, record c { kt_last = next })

-- The call with no other thread in between.
unfoldable pub assign_kthread : Cluster → Option (ℕ × Cluster)
unfolding assign_next assign_exchange
assign_kthread c = do
  next ← assign_next c
  kt ← (assign_exchange next c).0
  some (kt, (assign_exchange next c).1)
