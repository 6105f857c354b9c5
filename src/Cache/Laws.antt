-- ===== src/Cache/Laws.antt =====
-- The cache refines a list of at most `size` uThreads, the one that ended last first.
use u_threads.Base.{
  ℕ, ◌+◌, ◌-◌, ◌≤◌, ◌≡◌, ◌≢◌, refl, inl, inr, Bool, true, false, not, ◌||◌, List, [], ◌∷◌, Option,
  none, some, arith, ◌==◌, if◌then◌else◌, update, has, length, Bool-cases,
}
use u_threads.Intrusive.{Links, ◌>>=◌}
use u_threads.Intrusive.Stack.Laws.{IsStack, push_top, pop_top}
use u_threads.UThread.{UThread, reset}
use u_threads.Cache.{Store, push_cache, pop_cache, new_cache}

-- A call of the cache, with whether it gets the lock.
pub data Call : Type 0 where
  push_call : Bool → ℕ → Call
  pop_call : Bool → Call

-- What the calls return: the count or -1, and the address or `nullptr`.
pub data Result : Type 0 where
  pushed : Option ℕ → Result
  popped : ℕ → Result

-- A call on the list that the cache stands for.
unfoldable pub spec : ℕ → Call → List ℕ → Result × List ℕ
spec size (push_call owns_lock ut) xs =
    if not owns_lock || (length xs == size)
    then (pushed none, xs)
    else (pushed (some (length xs + 1)), ut ∷ xs)
spec size (pop_call owns_lock) [] = (popped 0, [])
spec size (pop_call owns_lock) (x ∷ xs) = if owns_lock then (popped x, xs) else (popped 0, x ∷ xs)

-- The call of the code.
pub run_call : Call → Store → Option (Result × Store)
unfolding push_cache pop_cache
run_call (push_call owns_lock ut) s = do (r, s') ← push_cache owns_lock ut s; some (pushed r, s')
run_call (pop_call owns_lock) s = do (r, s') ← pop_cache owns_lock s; some (popped r, s')

unfoldable pub spec_calls : ℕ → List Call → List ℕ → List Result × List ℕ
unfolding spec
spec_calls size [] xs = ([], xs)
spec_calls size (c ∷ cs) xs =
    let (r, xs') = spec size c xs in let (rs, ys) = spec_calls size cs xs' in (r ∷ rs, ys)

pub run_calls : List Call → Store → Option (List Result × Store)
unfolding run_call
run_calls [] s = some ([], s)
run_calls (c ∷ cs) s = do (r, s') ← run_call c s; (rs, s'') ← run_calls cs s'; some (r ∷ rs, s'')

-- A uThread that is pushed is not in the cache already.
unfoldable pub Fresh : Call → List ℕ → Type 0
Fresh (push_call owns_lock ut) xs = (ut ≢ 0) × (has ut xs ≡ false)
Fresh (pop_call owns_lock) xs = Unit {0}

unfoldable pub AllFresh : ℕ → List Call → List ℕ → Type 0
unfolding Fresh spec
AllFresh size [] xs = Unit {0}
AllFresh size (c ∷ cs) xs = Fresh c xs × AllFresh size cs (spec size c xs).1

-- The uThreads in the cache are as `reset` leaves them.
abbrev pub IsReset : (ℕ → UThread) → List ℕ → Type 0
IsReset uts [] = Unit {0}
IsReset uts (x ∷ xs) = (reset x (uts x) ≡ uts x) × IsReset uts xs

pub record IsCache (size : ℕ) (s : Store) (xs : List ℕ) : Type 0 where
  pub stack : IsStack s.links s.cache.stack xs
  pub count : s.cache.count ≡ length xs
  pub size_eq : s.cache.size ≡ size
  pub bound : length xs ≤ size
  pub all_reset : IsReset s.uts xs

IsReset-update :
    (uts : ℕ → UThread) (ut : ℕ) (v : UThread) (xs : List ℕ)
    → has ut xs ≡ false
    → IsReset uts xs
    → IsReset (update uts ut v) xs
IsReset-update uts ut v [] out r = tt
IsReset-update uts ut v (x ∷ xs) out r =
    let ne : (x == ut) ≡ false = ground arith in
    (rw ne r.0, IsReset-update uts ut v xs (ground arith) r.1)

reset_again :
    (uts : ℕ → UThread) (ut : ℕ)
    → reset ut (update uts ut (reset ut (uts ut)) ut) ≡ update uts ut (reset ut (uts ut)) ut
unfolding reset
reset_again uts ut = let self : (ut == ut) ≡ true = ground arith in rw self refl

Refines : ℕ → Call → Store → List ℕ → Type 0
unfolding run_call spec
Refines size c s xs =
    (s' : Store) × (run_call c s ≡ some ((spec size c xs).0, s'))
    × IsCache size s' (spec size c xs).1

push-Refines :
    (size : ℕ) (owns_lock : Bool) (ut : ℕ) (s : Store) (xs : List ℕ)
    → IsCache size s xs
    → ut ≢ 0
    → has ut xs ≡ false
    → Refines size (push_call owns_lock ut) s xs
unfolding Refines run_call spec push_cache
push-Refines size false ut s xs is ne out = (s, refl, is)
push-Refines size true ut s xs is ne out = elim (Bool-cases (length xs == size)) [
  | inl full ↦
      let full' : (s.cache.count == s.cache.size) ≡ true = rw (is.count, is.size_eq) full in
      (s, rw (full', full) refl, rw full is)
  | inr room ↦
      let (links', e, is', same) = push_top s.links s.cache.stack ut xs is.stack ne out in
      let room' : (s.cache.count == s.cache.size) ≡ false = rw (is.count, is.size_eq) room in
      (
        record {
          cache = record s.cache { stack = ut; count = s.cache.count + 1 };
          links = links';
          uts = update s.uts ut (reset ut (s.uts ut));
        },
        rw (room', room, e, is.count) refl,
        rw room (record {
          stack = is';
          count = omega (arith, is.count);
          size_eq = is.size_eq;
          bound = ground arith;
          all_reset = (
            reset_again s.uts ut,
            IsReset-update s.uts ut (reset ut (s.uts ut)) xs out is.all_reset,
          );
        }),
      )
]

pop-Refines :
    (size : ℕ) (owns_lock : Bool) (s : Store) (xs : List ℕ)
    → IsCache size s xs
    → Refines size (pop_call owns_lock) s xs
unfolding Refines run_call spec pop_cache
pop-Refines size owns_lock s [] is =
    let none_left : (s.cache.count == 0) ≡ true = rw is.count refl in
    elim owns_lock as (λ b. Refines size (pop_call b) s []) [
      | true ↦ (s, rw none_left refl, is)
      | false ↦ (s, refl, is)
    ]
pop-Refines size false s (x ∷ xs) is = (s, refl, is)
pop-Refines size true s (x ∷ xs) is =
    let (stack', links', e, is', gone, same) = pop_top s.links s.cache.stack x xs is.stack in
    let some_left : (s.cache.count == 0) ≡ false = ground arith in
    (
      record s {
        cache = record s.cache { stack = stack'; count = s.cache.count - 1 };
        links = links';
      },
      rw (some_left, e) refl,
      record {
        stack = is';
        count = omega (arith, is.count);
        size_eq = is.size_eq;
        bound = omega (arith, is.bound);
        all_reset = is.all_reset.1;
      },
    )

call-Refines :
    (size : ℕ) (c : Call) (s : Store) (xs : List ℕ)
    → IsCache size s xs
    → Fresh c xs
    → Refines size c s xs
unfolding Fresh
call-Refines size (push_call owns_lock ut) s xs is f =
    push-Refines size owns_lock ut s xs is f.0 f.1
call-Refines size (pop_call owns_lock) s xs is f = pop-Refines size owns_lock s xs is

-- Calls with any outcomes of `try_to_lock`, in which no uThread is pushed that is in the cache, return
-- what a stack of at most `size` uThreads returns, and leave the cache standing for that stack.
pub calls-refine :
    (size : ℕ) (cs : List Call) (s : Store) (xs : List ℕ)
    → IsCache size s xs
    → AllFresh size cs xs
    → (s' : Store) × (run_calls cs s ≡ some ((spec_calls size cs xs).0, s'))
      × IsCache size s' (spec_calls size cs xs).1
unfolding AllFresh run_calls spec_calls Refines
calls-refine size [] s xs is f = (s, refl, is)
calls-refine size (c ∷ cs) s xs is f =
    let (s', e, is') = call-Refines size c s xs is f.0 in
    let (s'', e', is'') = calls-refine size cs s' (spec size c xs).1 is' f.1 in
    (s'', rw e (rw e' refl), is'')

pub new_cache-IsCache :
    (size : ℕ) (links : Links) (uts : ℕ → UThread)
    → IsCache size (record { cache = new_cache size; links = links; uts = uts }) []
unfolding new_cache
new_cache-IsCache size links uts = record {
  stack = record { chain = refl; distinct = tt };
  count = refl;
  size_eq = refl;
  bound = omega arith;
  all_reset = tt;
}
