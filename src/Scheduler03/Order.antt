-- ===== src/Scheduler03/Order.antt =====
-- The run queue is first in, first out, and its kThread does not sleep while there is a uThread.
use u_threads.Base.{
  Bool-cases, ◌==◌, sym, ◌∙◌, subst, append-nil, append_assoc, Distinct, Apart, Distinct-split,
  Distinct-append, ℕ, ◌≡◌, ◌≢◌, refl, inl, inr, Bool, true, false, List, [], ◌∷◌, ◌++◌, Option,
  some, ◌>>=◌, if◌then◌else◌, has, has-append, Distinct-snoc, arith,
}
use u_threads.Intrusive.{Links}
use u_threads.Intrusive.Queue.{IntrusiveQueue, empty_queue, push, empty}
use u_threads.Intrusive.Queue.Moves.{transfer_all_from-append}
use u_threads.Intrusive.Queue.Laws.{
  IsQueue, SameOutside, IsQueue-frame, empty_queue-IsQueue, push-append, pop-cons, empty-IsQueue,
}
use u_threads.Scheduler03.{Scheduler, schedule, schedule_many, take_front, try_pop, pop_round}

-- What the other uThreads and the kThread call, and what they get: 0 is `nullptr`, or a wait.
pub data Call : Type 0 where
  schedule_call : ℕ → Call
  schedule_many_call : List ℕ → Call
  try_pop_call : Bool → Call
  pop_call : Call

-- The list that the queue stands for, and whether the kThread sleeps.
unfoldable pub spec : Call → List ℕ → List ℕ × List ℕ × Bool
spec (schedule_call ut) xs = ([], xs ++ ut ∷ [], false)
spec (schedule_many_call uts) xs = ([], xs ++ uts, false)
spec (try_pop_call owns_lock) [] = (0 ∷ [], [], false)
spec (try_pop_call owns_lock) (x ∷ xs) =
    if owns_lock then (x ∷ [], xs, false) else (0 ∷ [], x ∷ xs, false)
spec pop_call [] = (0 ∷ [], [], true)
spec pop_call (x ∷ xs) = (x ∷ [], xs, false)

-- The bulk queue that is passed to `schedule(queue, count)`.
unfoldable pub push_all : List ℕ → IntrusiveQueue → Links → Option (IntrusiveQueue × Links)
push_all [] q h = some (q, h)
push_all (ut ∷ uts) q h = do (q', h') ← push ut q h; push_all uts q' h'

pub run_call : Call → Scheduler → Option (List ℕ × Scheduler)
unfolding schedule schedule_many push_all try_pop pop_round
run_call (schedule_call ut) s = do s' ← schedule ut s; some ([], s')
run_call (schedule_many_call uts) s = do
  (eq, h) ← push_all uts empty_queue s.links
  (eq', s') ← schedule_many eq (record s { links = h })
  some ([], s')
run_call (try_pop_call owns_lock) s = do (r, s') ← try_pop owns_lock s; some (r ∷ [], s')
run_call pop_call s = do (r, s') ← pop_round s; some (r ∷ [], s')

unfoldable pub spec_calls : List Call → List ℕ → List ℕ × List ℕ
unfolding spec
spec_calls [] xs = ([], xs)
spec_calls (c ∷ cs) xs =
    let (r, xs', b) = spec c xs in let (rs, ys) = spec_calls cs xs' in (r ++ rs, ys)

pub run_calls : List Call → Scheduler → Option (List ℕ × Scheduler)
unfolding run_call
run_calls [] s = some ([], s)
run_calls (c ∷ cs) s =
    let rest = run_calls cs in do (r, s') ← run_call c s; (rs, s'') ← rest s'; some (r ++ rs, s'')

-- A uThread that is scheduled is not in the queue already, and `schedule` of many gets some.
unfoldable pub Fresh : Call → List ℕ → Type 0
Fresh (schedule_call ut) xs = (ut ≢ 0) × (has ut xs ≡ false)
Fresh (schedule_many_call uts) xs = (uts ≢ []) × (has 0 uts ≡ false) × Distinct uts × Apart xs uts
Fresh (try_pop_call owns_lock) xs = Unit {0}
Fresh pop_call xs = Unit {0}

unfoldable pub AllFresh : List Call → List ℕ → Type 0
unfolding Fresh spec
AllFresh [] xs = Unit {0}
AllFresh (c ∷ cs) xs = Fresh c xs × AllFresh cs (spec c xs).1

-- Outside the queue nothing is linked.
pub record Holds (s : Scheduler) (xs : List ℕ) : Type 0 where
  pub queue : IsQueue s.links s.run_queue xs
  pub unlinked : (a : ℕ) → has a xs ≡ false → s.links.next a ≡ 0
  pub sleeps : s.asleep ≡ true → xs ≡ []

Refines : Call → Scheduler → List ℕ → Type 0
unfolding run_call spec
Refines c s xs =
    (s' : Scheduler) × (run_call c s ≡ some ((spec c xs).0, s')) × Holds s' (spec c xs).1

pub empty-nil : (s : Scheduler) → Holds s [] → empty s.run_queue ≡ true
empty-nil s i = elim (empty-IsQueue s.links s.run_queue [] i.queue) [
  | inl (f, z) ↦ f
  | inr (f, z) ↦ ground (arith, z refl)
]

pub empty-cons :
    (s : Scheduler) (x : ℕ) (xs : List ℕ) → Holds s (x ∷ xs) → empty s.run_queue ≡ false
empty-cons s x xs i = elim (empty-IsQueue s.links s.run_queue (x ∷ xs) i.queue) [
  | inl (f, z) ↦ ground arith
  | inr (f, z) ↦ f
]

pub take_front-cons :
    (s : Scheduler) (x : ℕ) (xs : List ℕ)
    → Holds s (x ∷ xs)
    → (s' : Scheduler) × (take_front s ≡ some (x, s')) × Holds s' xs
unfolding take_front
take_front-cons s x xs i =
    let (q, h, e, is, z, same) = pop-cons s.links s.run_queue x xs i.queue in
    (
      record { run_queue = q; links = h; asleep = false },
      rw (e, i.queue.chain.0) refl,
      record {
        queue = is;
        unlinked = λ a o. ground (arith, same.1 a, i.unlinked a, z);
        sleeps = λ f. ground arith;
      },
    )

pub schedule-snoc :
    (ut : ℕ) (s : Scheduler) (xs : List ℕ)
    → ut ≢ 0
    → has ut xs ≡ false
    → Holds s xs
    → (s' : Scheduler) × (schedule ut s ≡ some s') × Holds s' (xs ++ ut ∷ [])
unfolding schedule
schedule-snoc ut s xs ne out i =
    let (q, h, e, is, same) =
      push-append s.links s.run_queue ut xs i.queue ne (i.unlinked ut out)
        (Distinct-snoc ut xs out i.queue.distinct) in
    (
      record { run_queue = q; links = h; asleep = false },
      rw e refl,
      record {
        queue = is;
        unlinked = λ a o. ground (arith, same.1 a, i.unlinked a, has-append a xs (ut ∷ []));
        sleeps = λ f. ground arith;
      },
    )

Apart-out : (a : ℕ) (xs ys : List ℕ) → Apart xs ys → has a ys ≡ true → has a xs ≡ false
Apart-out a [] ys ap h = refl
Apart-out a (x ∷ xs) ys ap h = elim (Bool-cases (a == x)) [
  | inl t ↦
      let same : a ≡ x = ground arith in
      absurd (ground (arith, sym h ∙ (subst (λ b. has a ys ≡ has b ys) same refl ∙ ap.0)))
  | inr t ↦ rw t (Apart-out a xs ys ap.1 h)
]

push_all-append :
    (uts xs : List ℕ) (q : IntrusiveQueue) (h : Links)
    → IsQueue h q xs
    → has 0 uts ≡ false
    → Distinct uts
    → Apart xs uts
    → ((a : ℕ) → has a uts ≡ true → h.next a ≡ 0)
    → (q' : IntrusiveQueue) × (h' : Links) × (push_all uts q h ≡ some (q', h'))
      × IsQueue h' q' (xs ++ uts)
      × SameOutside (xs ++ uts) h h'
unfolding push_all
push_all-append [] xs q h is z d apart free =
    (q, h, refl, subst (IsQueue h q) (sym (append-nil xs)) is, (refl, λ a o. refl))
push_all-append (ut ∷ uts) xs q h is z d apart free =
    let here : has ut (ut ∷ uts) ≡ true = ground arith in
    let out = Apart-out ut xs (ut ∷ uts) apart here in
    let assoc = append_assoc xs (ut ∷ []) uts in
    let (q1, h1, e1, is1, same1) =
      push-append h q ut xs is (ground (arith, z)) (free ut here)
        (Distinct-snoc ut xs out is.distinct) in
    let all = Distinct-append xs (ut ∷ uts) is.distinct d apart in
    let (d1, d2, apart1) = Distinct-split (xs ++ ut ∷ []) uts (subst Distinct (sym assoc) all) in
    let later : (a : ℕ) → has a uts ≡ true → has a (ut ∷ uts) ≡ true = λ a t. ground (arith, t) in
    let (q2, h2, e2, is2, same2) =
      push_all-append uts (xs ++ ut ∷ []) q1 h1 is1 (ground (arith, z)) d.1 apart1
        (λ a t. same1.1 a (Apart-out a xs (ut ∷ uts) apart (later a t)) ∙ free a (later a t)) in
    (
      q2,
      h2,
      rw e1 e2,
      subst (IsQueue h2 q2) assoc is2,
      (
        same2.0 ∙ same1.0,
        λ a o.
            let out_q : has a xs ≡ false = ground (arith, has-append a xs (ut ∷ uts)) in
            same2.1 a (subst (λ l. has a l ≡ false) (sym assoc) o) ∙ same1.1 a out_q,
      ),
    )

many-Refines :
    (uts : List ℕ) (s : Scheduler) (xs : List ℕ)
    → Fresh (schedule_many_call uts) xs
    → Holds s xs
    → Refines (schedule_many_call uts) s xs
unfolding Refines run_call spec Fresh schedule_many
many-Refines [] s xs f i = absurd (f.0 refl)
many-Refines (ut ∷ uts) s xs (some_ut, z, d, apart) i =
    let free : (a : ℕ) → has a (ut ∷ uts) ≡ true → s.links.next a ≡ 0 =
      λ a h. i.unlinked a (Apart-out a xs (ut ∷ uts) apart h) in
    let (eq, h1, e1, ise, same1) =
      push_all-append (ut ∷ uts) [] empty_queue s.links (empty_queue-IsQueue s.links) z d tt free in
    let isq = IsQueue-frame s.links h1 s.run_queue (ut ∷ uts) xs same1 apart i.queue in
    let (q2, h2, e2, is2, same2) =
      transfer_all_from-append h1 s.run_queue eq ut xs uts isq ise apart in
    (
      record { run_queue = q2; links = h2; asleep = false },
      rw (e1, e2) refl,
      record {
        queue = is2;
        unlinked = λ a o.
            let split = has-append a xs (ut ∷ uts) in
            let out_q : has a xs ≡ false = ground (arith, split) in
            let out_b : has a (ut ∷ uts) ≡ false = ground (arith, split) in
            same2.1 a o ∙ (same1.1 a out_b ∙ i.unlinked a out_q);
        sleeps = λ f. ground arith;
      },
    )

call-Refines : (c : Call) (s : Scheduler) (xs : List ℕ) → Fresh c xs → Holds s xs → Refines c s xs
unfolding Refines run_call spec Fresh try_pop pop_round
call-Refines (schedule_call ut) s xs f i =
    let (s', e, i') = schedule-snoc ut s xs f.0 f.1 i in (s', rw e refl, i')
call-Refines (schedule_many_call uts) s xs f i = many-Refines uts s xs f i
call-Refines (try_pop_call true) s [] f i = (
  record s { asleep = false },
  rw (empty-nil s i) refl,
  record { queue = i.queue; unlinked = i.unlinked; sleeps = λ z. refl },
)
call-Refines (try_pop_call false) s [] f i = (
  record s { asleep = false },
  refl,
  record { queue = i.queue; unlinked = i.unlinked; sleeps = λ z. refl },
)
call-Refines (try_pop_call true) s (x ∷ xs) f i =
    let (s', e, i') = take_front-cons s x xs i in (s', rw (empty-cons s x xs i, e) refl, i')
call-Refines (try_pop_call false) s (x ∷ xs) f i = (
  record s { asleep = false },
  refl,
  record { queue = i.queue; unlinked = i.unlinked; sleeps = λ z. ground arith },
)
call-Refines pop_call s [] f i = (
  record s { asleep = true },
  rw (empty-nil s i) refl,
  record { queue = i.queue; unlinked = i.unlinked; sleeps = λ z. refl },
)
call-Refines pop_call s (x ∷ xs) f i =
    let (s', e, i') = take_front-cons s x xs i in (s', rw (empty-cons s x xs i, e) refl, i')

-- Any sequence of calls of `schedule`, of one or of many uThreads, `__tryPop` and rounds of `__Pop` takes the uThreads in the order in which they were scheduled, each once, and
-- leaves the kThread asleep only with an empty run queue.
pub calls-in_order :
    (cs : List Call) (s : Scheduler) (xs : List ℕ)
    → Holds s xs
    → AllFresh cs xs
    → (s' : Scheduler) × (run_calls cs s ≡ some ((spec_calls cs xs).0, s'))
      × Holds s' (spec_calls cs xs).1
unfolding AllFresh run_calls spec_calls Refines
calls-in_order [] s xs i f = (s, refl, i)
calls-in_order (c ∷ cs) s xs i f =
    let (s', e, i') = call-Refines c s xs f.0 i in
    let (s'', e', i'') = calls-in_order cs s' (spec c xs).1 i' f.1 in (s'', rw e (rw e' refl), i'')
