-- ===== src/Sync/Mutex/Order.antt =====
-- The mutex is handed over in the order of arrival.
use u_threads.Base.{
  ℕ, zero, suc, ◌≡◌, refl, ◌≢◌, false, List, [], ◌∷◌, ◌++◌, some, arith, ◌==◌, ◌≤◌, sym, ◌∙◌,
  get_elem?,
}
use u_threads.Sync.{MutexState, acquire, release}

-- A call that any uThread makes on the mutex.
pub data Call : Type 0 where
  acquires : ℕ → Call
  releases : Call

unfoldable pub call : Call → MutexState → MutexState
call (acquires me) m = (acquire me m).0
call releases m = (release m).0

unfoldable pub calls : List Call → MutexState → MutexState
calls [] m = m
calls (c ∷ cs) m = calls cs (call c m)

abbrev pub count_releases : List Call → ℕ
count_releases [] = 0
count_releases (acquires me ∷ cs) = count_releases cs
count_releases (releases ∷ cs) = suc (count_releases cs)

-- An arrival leaves the places up to one that is taken as they are.
append-get_elem? :
    (xs ys : List ℕ) (k n t : ℕ)
    → k ≤ n
    → get_elem? xs n ≡ some t
    → get_elem? (xs ++ ys) k ≡ get_elem? xs k
append-get_elem? [] ys k n t h e = absurd (cc)
append-get_elem? (x ∷ xs) ys zero n t h e = refl
append-get_elem? (x ∷ xs) ys (suc k) zero t h e = absurd (omega arith)
append-get_elem? (x ∷ xs) ys (suc k) (suc n) t h e = append-get_elem? xs ys k n t (omega arith) e

-- A held mutex, with uThreads (no null pointers) in the places up to that of `t`.
pub record IsAt (t n : ℕ) (m : MutexState) : Type 0 where
  pub held : m.owner ≢ 0
  pub place : get_elem? m.bq n ≡ some t
  pub ahead : (k u : ℕ) → k ≤ n → get_elem? m.bq k ≡ some u → u ≢ 0

acquire-IsAt : (me t n : ℕ) (m : MutexState) → IsAt t n m → IsAt t n (acquire me m).0
unfolding acquire
acquire-IsAt me t n m i =
    let busy : (m.owner == 0) ≡ false = ground (arith, i.held) in
    rw busy (record {
      held = i.held;
      place = append-get_elem? m.bq (me ∷ []) n n t (omega arith) i.place ∙ i.place;
      ahead = λ k u h e. i.ahead k u h (sym (append-get_elem? m.bq (me ∷ []) k n t h i.place) ∙ e);
    })

release-IsAt :
    (t n owner : ℕ) (bq : List ℕ)
    → IsAt t (suc n) (record { owner = owner; bq = bq })
    → IsAt t n (release (record { owner = owner; bq = bq })).0
unfolding release
release-IsAt t n owner [] i = absurd (ground (arith, i.place))
release-IsAt t n owner (x ∷ bq) i = record {
  held = i.ahead 0 x (omega arith) refl;
  place = i.place;
  ahead = λ k u h e. i.ahead (suc k) u (omega arith) e;
}

release-owner :
    (t owner : ℕ) (bq : List ℕ)
    → get_elem? bq 0 ≡ some t
    → (release (record { owner = owner; bq = bq })).0.owner ≡ t
unfolding release
release-owner t owner [] e = absurd (cc)
release-owner t owner (x ∷ bq) e = ground arith

-- The uThread at place `n` of the blocking queue of a held mutex owns it once `n + 1` releases are
-- made, whatever other uThreads arrive in between.
pub bounded_wait :
    (cs : List Call) (m : MutexState) (n t : ℕ)
    → IsAt t n m
    → count_releases cs ≡ n
    → (call releases (calls cs m)).owner ≡ t
unfolding calls call
bounded_wait [] m n t i h = release-owner t m.owner m.bq (ground (arith, i.place))
bounded_wait (acquires me ∷ cs) m n t i h =
    bounded_wait cs (acquire me m).0 n t (acquire-IsAt me t n m i) h
bounded_wait (releases ∷ cs) m zero t i h = absurd (omega arith)
bounded_wait (releases ∷ cs) m (suc n) t i h =
    bounded_wait cs (release m).0 n t (release-IsAt t n m.owner m.bq i) (omega arith)
