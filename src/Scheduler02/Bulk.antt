-- ===== src/Scheduler02/Bulk.antt =====
-- src/runtime/schedulers/Scheduler_02.h: `prepareBulkPush` and `bulkPush`. The links of the bulk queue
-- of a kThread and of its run queue are the same memory.
use u_threads.Base.{
  ℕ, ◌+◌, ◌≡◌, ◌≢◌, refl, sym, subst, true, false, List, [], ◌∷◌, ◌++◌, append-nil, Option, some,
  ltb, ◌==◌, if◌then◌else◌, update, has, has-apart, Apart, length, length-append, Distinct-snoc,
  Ensures, Ensures-some, arith,
}
use u_threads.Intrusive.{Links, ◌>>=◌}
use u_threads.Intrusive.Seg.{Seg, last_of, Seg-relink, has-last_of, last_of-ne}
use u_threads.Intrusive.Queue.{IntrusiveQueue, empty_queue, push, remove_all}
use u_threads.Intrusive.Queue.Laws.{IsQueue, push-append, empty_queue-IsQueue}
use u_threads.Mpsc.{MpscQueue}
use u_threads.Mpsc.Run.{Aligned, IsFresh}
use u_threads.Scheduler02.{Scheduler, push_chain, schedule_many}
use u_threads.Scheduler02.Run.{Run, prepares, schedules}

-- What `KTVar` adds to a kThread, beside its scheduler, and the `prev` fields that nothing uses.
pub record KtVar : Type 0 where
  pub bulk_queue : IntrusiveQueue
  pub bulk_counter : ℕ
  pub prev : ℕ → ℕ
  pub scheduler : Scheduler

abbrev pub links : KtVar → Links
links k = record { prev = k.prev; next = k.scheduler.queue.next }

-- `prepareBulkPush` of a uThread whose home is this kThread.
unfoldable pub prepare_bulk_push : ℕ → KtVar → Option KtVar
prepare_bulk_push ut k = do
  (q, h) ← push ut k.bulk_queue (links k)
  some (record k {
    bulk_queue = q;
    bulk_counter = k.bulk_counter + 1;
    scheduler = record k.scheduler { queue = record k.scheduler.queue { next = h.next } };
  })

-- The body of the loop of `bulkPush(cluster)`.
unfoldable pub bulk_push_one : KtVar → Option KtVar
bulk_push_one k =
    if ltb 0 k.bulk_counter
    then (do
      (q, s) ← schedule_many k.bulk_queue k.prev k.scheduler
      some (record k { bulk_queue = q; bulk_counter = 0; scheduler = s }))
    else some (record k { bulk_counter = 0 })

-- `bulkPush(cluster)` over its kThreads, and `bulkPush()` over the clusters.
unfoldable pub bulk_push_cluster : List ℕ → (ℕ → KtVar) → Option (ℕ → KtVar)
unfolding bulk_push_one
bulk_push_cluster [] s = some s
bulk_push_cluster (k ∷ kts) s =
    let rest = bulk_push_cluster kts in do k' ← bulk_push_one (s k); rest (update s k k')

unfoldable pub bulk_push : List (List ℕ) → (ℕ → KtVar) → Option (ℕ → KtVar)
unfolding bulk_push_cluster
bulk_push [] s = some s
bulk_push (kts ∷ clusters) s =
    let rest = bulk_push clusters in do s' ← bulk_push_cluster kts s; rest s'

Apart-last : (x : ℕ) (xs c : List ℕ) → Apart (x ∷ xs) c → Apart (last_of x xs ∷ []) c
Apart-last x [] c a = (a.0, tt)
Apart-last x (y ∷ ys) c a = Apart-last y ys c a.1

Aligned-last : (x : ℕ) (xs : List ℕ) → Aligned (x ∷ xs) → Aligned (last_of x xs ∷ [])
Aligned-last x [] a = (a.0, a.1, tt)
Aligned-last x (y ∷ ys) a = Aligned-last y ys a.2

IsFresh-last :
    (stub : ℕ) (pushed popped : List ℕ) (x : ℕ) (xs : List ℕ)
    → IsFresh stub pushed popped (x ∷ xs)
    → IsFresh stub pushed popped (last_of x xs ∷ [])
IsFresh-last stub pushed popped x xs f = record {
  aligned = Aligned-last x xs f.aligned;
  distinct = (refl, tt);
  not_stub = ground (arith, has-apart stub (last_of x xs) (x ∷ xs) f.not_stub (has-last_of x xs));
  apart = λ c e. Apart-last x xs c (f.apart c e);
}

-- The last element of the bulk queue is cut off from what may follow it, which is nothing.
cut_off : ℕ → List ℕ → Scheduler → Scheduler
cut_off x xs s = record s { queue = record s.queue { next = update s.queue.next (last_of x xs) 0 } }

schedule_many-chain :
    (k : KtVar) (x : ℕ) (xs : List ℕ)
    → IsQueue (links k) k.bulk_queue (x ∷ xs)
    → schedule_many k.bulk_queue k.prev k.scheduler
      ≡ some (empty_queue, push_chain x (last_of x xs) (cut_off x xs k.scheduler))
unfolding schedule_many cut_off remove_all
schedule_many-chain k x xs is =
    let ne : (last_of x xs == 0) ≡ false =
      ground (arith, last_of-ne k.scheduler.queue.next 0 x xs is.chain.1 is.chain.2) in
    rw (is.tail, ne, is.chain.0) refl

bulk_push_one-chain :
    (k : KtVar) (x : ℕ) (xs : List ℕ)
    → IsQueue (links k) k.bulk_queue (x ∷ xs)
    → k.bulk_counter ≡ length (x ∷ xs)
    → bulk_push_one k
      ≡ some (record k {
        bulk_queue = empty_queue;
        bulk_counter = 0;
        scheduler = push_chain x (last_of x xs) (cut_off x xs k.scheduler);
      })
unfolding bulk_push_one
bulk_push_one-chain k x xs is n =
    let more : ltb 0 k.bulk_counter ≡ true = ground arith in
    rw (more, schedule_many-chain k x xs is) refl

cut_off-Run :
    (stub : ℕ) (s : Scheduler) (pushed popped : List ℕ) (x : ℕ) (xs : List ℕ)
    → Run stub s pushed popped
    → Seg s.queue.next x (x ∷ xs) 0
    → IsFresh stub pushed popped (x ∷ xs)
    → Run stub (push_chain x (last_of x xs) (cut_off x xs s)) (pushed ++ x ∷ xs) popped
unfolding cut_off
cut_off-Run stub s pushed popped x xs r seg f =
    schedules 0 x xs (prepares (last_of x xs) 0 r (IsFresh-last stub pushed popped x xs f))
      (Seg-relink s.queue.next x 0 0 x xs f.distinct seg) f

bulk_push_none :
    (k : KtVar)
    → ltb 0 k.bulk_counter ≡ false
    → bulk_push_one k ≡ some (record k { bulk_counter = 0 })
unfolding bulk_push_one
bulk_push_none k z = rw z refl

-- A bulk push is a step of a history of the scheduler: at any moment of one, a kThread whose bulk queue
-- links uThreads that are not in the run queue, and whose counter counts them, has scheduled all of
-- them afterwards, in order, and nothing more; its bulk queue is empty then.
pub bulk_push_one-Run :
    (stub : ℕ) (k : KtVar) (xs pushed popped : List ℕ)
    → Run stub k.scheduler pushed popped
    → IsQueue (links k) k.bulk_queue xs
    → k.bulk_counter ≡ length xs
    → IsFresh stub pushed popped xs
    → (k' : KtVar) × (bulk_push_one k ≡ some k')
      × Run stub k'.scheduler (pushed ++ xs) popped
      × (k'.bulk_counter ≡ 0)
      × IsQueue (links k') k'.bulk_queue []
bulk_push_one-Run stub k [] pushed popped r is n f =
    let none_left : ltb 0 k.bulk_counter ≡ false = ground arith in
    (
      record k { bulk_counter = 0 },
      bulk_push_none k none_left,
      subst (λ ps. Run stub k.scheduler ps popped) (sym (append-nil pushed)) r,
      refl,
      record { chain = is.chain; tail = is.tail; distinct = is.distinct },
    )
bulk_push_one-Run stub k (x ∷ xs) pushed popped r is n f = (
  record k {
    bulk_queue = empty_queue;
    bulk_counter = 0;
    scheduler = push_chain x (last_of x xs) (cut_off x xs k.scheduler);
  },
  bulk_push_one-chain k x xs is n,
  cut_off-Run stub k.scheduler pushed popped x xs r
      (subst (λ p. Seg k.scheduler.queue.next p (x ∷ xs) 0) is.chain.0 is.chain) f,
  refl,
  empty_queue-IsQueue _,
)

push-cons :
    (k : KtVar) (ut x : ℕ) (xs : List ℕ)
    → IsQueue (links k) k.bulk_queue (x ∷ xs)
    → push ut k.bulk_queue (links k)
      ≡ some (
        record k.bulk_queue { tail = ut },
        record { prev = k.prev; next = update k.scheduler.queue.next (last_of x xs) ut },
      )
unfolding push
push-cons k ut x xs is =
    let some_first : (k.bulk_queue.head == 0) ≡ false = ground (arith, is.chain.0, is.chain.1) in
    let ne : (last_of x xs == 0) ≡ false =
      ground (arith, last_of-ne k.scheduler.queue.next 0 x xs is.chain.1 is.chain.2) in
    rw (some_first, is.tail, ne) refl

push-nil :
    (k : KtVar) (ut : ℕ)
    → IsQueue (links k) k.bulk_queue []
    → push ut k.bulk_queue (links k) ≡ some (record { head = ut; tail = ut }, links k)
unfolding push
push-nil k ut is =
    let none_first : (k.bulk_queue.head == 0) ≡ true = ground (arith, is.chain) in
    rw none_first refl

-- `prepareBulkPush` puts a uThread at the end of the bulk queue, which is no step of the run queue.
pub prepare_bulk_push-Run :
    (stub ut : ℕ) (k : KtVar) (xs pushed popped : List ℕ)
    → Run stub k.scheduler pushed popped
    → IsQueue (links k) k.bulk_queue xs
    → k.bulk_counter ≡ length xs
    → IsFresh stub pushed popped xs
    → ut ≢ 0
    → has ut xs ≡ false
    → k.scheduler.queue.next ut ≡ 0
    → (k' : KtVar) × (prepare_bulk_push ut k ≡ some k')
      × Run stub k'.scheduler pushed popped
      × (k'.bulk_counter ≡ length (xs ++ ut ∷ []))
      × IsQueue (links k') k'.bulk_queue (xs ++ ut ∷ [])
unfolding prepare_bulk_push
prepare_bulk_push-Run stub ut k [] pushed popped r is n f ne out z = (
  record k { bulk_queue = record { head = ut; tail = ut }; bulk_counter = k.bulk_counter + 1 },
  rw (push-nil k ut is) refl,
  r,
  ground arith,
  record { chain = (refl, ne, z); tail = refl; distinct = (refl, tt) },
)
prepare_bulk_push-Run stub ut k (x ∷ xs) pushed popped r is n f ne out z =
    let d = Distinct-snoc ut (x ∷ xs) out is.distinct in
    let (q', h', e, is', same) = push-append (links k) k.bulk_queue ut (x ∷ xs) is ne z d in
    let Pushed : IntrusiveQueue × Links → Type 0 = λ (q, h). IsQueue h q (x ∷ xs ++ ut ∷ []) in
    let pushed_queue : Ensures Pushed (push ut k.bulk_queue (links k)) = rw e is' in
    let q : MpscQueue = record k.scheduler.queue {
      next = update k.scheduler.queue.next (last_of x xs) ut;
    } in
    (
      record k {
        bulk_queue = record k.bulk_queue { tail = ut };
        bulk_counter = k.bulk_counter + 1;
        scheduler = record k.scheduler { queue = q };
      },
      rw (push-cons k ut x xs is) refl,
      prepares (last_of x xs) ut r (IsFresh-last stub pushed popped x xs f),
      ground (arith, length-append xs (ut ∷ [])),
      Ensures-some Pushed (push ut k.bulk_queue (links k)) _ pushed_queue (push-cons k ut x xs is),
    )
