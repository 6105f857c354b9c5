-- ===== src/Pool/Awake.antt =====
-- No task is stranded in the queue.
use u_threads.Base.{
  ℕ, suc, ◌≡◌, ◌≢◌, ◌⊎◌, inl, inr, refl, true, List, [], ◌∷◌, ◌++◌, none, some, has, has-append,
  update, arith,
}
use u_threads.Pool.{
  Pool, absent, runs, idle, waits, new_pool, load_idle, execute_new, execute_queue, end_task,
  next_task, next_of, wake, rest_of,
}
use u_threads.Pool.Run.{Reach}

-- `someone` is a uThread of the pool that is not waiting while there are tasks.
record Holds (p : Pool) : Type 0 where
  in_cv : (w : ℕ) → p.pc w ≡ waits → has w p.cv ≡ true
  counted :
      ((w : ℕ) × (p.pc w ≢ absent))
      ⊎ ((p.idle_count ≡ 0) × ((c : ℕ) (n : ℕ) → p.seen c ≢ some (suc n)))
  awake : (p.tasks ≡ []) ⊎ ((w : ℕ) × (p.pc w ≢ absent) × (p.pc w ≢ waits))

load-Holds : (me : ℕ) (p : Pool) → Holds p → Holds (load_idle me p)
unfolding load_idle
load-Holds me p i = record {
  in_cv = i.in_cv;
  counted = elim i.counted [ inl x ↦ inl x | inr (z, s) ↦ inr (z, λ c n. ground (arith, s c n)) ];
  awake = i.awake;
}

new-Holds : (me task w : ℕ) (p : Pool) → p.pc w ≡ absent → Holds p → Holds (execute_new me task w p)
unfolding execute_new
new-Holds me task w p e i = record {
  in_cv = λ q h. ground (arith, i.in_cv q);
  counted = inl (w, ground arith);
  awake = inr (w, ground arith, ground arith);
}

awake-add :
    (me task : ℕ) (l : List ℕ) (p : Pool)
    → p.cv ≡ l
    → (w : ℕ) → p.pc w ≢ absent
    → Holds p
    → Holds (record p {
      tasks = p.tasks ++ task ∷ [];
      cv = rest_of l;
      pc = wake l p.pc;
      seen = update p.seen me none;
    })
awake-add me task [] p c w a i =
    let up : p.pc w ≢ waits = λ h. ground (arith, i.in_cv w h) in
    record {
      in_cv = λ q h. ground (arith, i.in_cv q);
      counted = inl (w, a);
      awake = inr (w, a, up);
    }
awake-add me task (x ∷ xs) p c w a i = record {
  in_cv = λ q h. ground (arith, i.in_cv q);
  counted = inl (x, ground arith);
  awake = inr (x, ground arith, ground arith);
}

queue-Holds :
    (me task n : ℕ) (p : Pool)
    → p.seen me ≡ some (suc n)
    → Holds p
    → Holds (execute_queue me task p)
unfolding execute_queue
queue-Holds me task n p e i = elim i.counted [
  | inl (w, a) ↦ awake-add me task p.cv p refl w a i
  | inr (z, s) ↦ ground (arith, s me n)
]

end-Holds : (task w : ℕ) (p : Pool) → p.pc w ≡ runs task → Holds p → Holds (end_task w p)
unfolding end_task
end-Holds task w p e i = record {
  in_cv = λ q h. ground (arith, i.in_cv q);
  counted = inl (w, ground arith);
  awake = inr (w, ground arith, ground arith);
}

next-Holds :
    (w : ℕ) (l : List ℕ) (p : Pool) → p.tasks ≡ l → p.pc w ≡ idle → Holds p → Holds (next_of w l p)
unfolding next_of
next-Holds w [] p t e i = record {
  in_cv = λ q h. ground (arith, i.in_cv q, has-append q p.cv (w ∷ []));
  counted = inl (w, ground arith);
  awake = inl t;
}
next-Holds w (x ∷ xs) p t e i = record {
  in_cv = λ q h. ground (arith, i.in_cv q);
  counted = inl (w, ground arith);
  awake = inr (w, ground arith, ground arith);
}

Reach-Holds : (p : Pool) → Reach p → Holds p
unfolding new_pool next_task
Reach-Holds _ Reach.at_first = record {
  in_cv = λ q h. ground arith;
  counted = inr (refl, λ c n. ground arith);
  awake = inl refl;
}
Reach-Holds _ (Reach.loads me p r) = load-Holds me p (Reach-Holds p r)
Reach-Holds _ (Reach.executes_new me task w p s e r) = new-Holds me task w p e (Reach-Holds p r)
Reach-Holds _ (Reach.executes_queue me task n p e r) = queue-Holds me task n p e (Reach-Holds p r)
Reach-Holds _ (Reach.ends task w p e r) = end-Holds task w p e (Reach-Holds p r)
Reach-Holds _ (Reach.nexts w p e r) = next-Holds w p.tasks p refl e (Reach-Holds p r)

-- While a task is in the queue some uThread of the pool runs a task or is on its way to the queue.
pub queued-awake :
    (p : Pool) → Reach p → p.tasks ≢ [] → (w : ℕ) × (p.pc w ≢ absent) × (p.pc w ≢ waits)
queued-awake p r ne = elim (Reach-Holds p r).awake [ inl e ↦ ground arith | inr w ↦ w ]
