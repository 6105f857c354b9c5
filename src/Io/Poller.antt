-- ===== src/Io/Poller.antt =====
-- src/io/IOHandler.cpp: `pollerFunc`, the loop of the poller's kernel thread, and the flag that keeps
-- it and `nonblockingPoll` apart. `clock_gettime` gives the first time.
use u_threads.Base.{
  ℕ, suc, ◌+◌, ◌-◌, ◌*◌, ◌<◌, ◌≡◌, Bool, true, false, List, [], ◌∷◌, ltb, leb, if◌then◌else◌, arith,
  Bool-cases, inl, inr,
}

-- `struct timespec ts`, in seconds and nanoseconds.
pub record Time : Type 0 where
  pub tv_sec : ℕ
  pub tv_nsec : ℕ

abbrev pub billion : ℕ
billion = 1000000000

abbrev pub ms : ℕ
ms = 1000000

-- The branch behind a `timedwait` that timed out.
unfoldable pub later : Time → Time
later ts =
    if leb billion (ts.tv_nsec + ms)
    then record { tv_sec = ts.tv_sec + 1; tv_nsec = ts.tv_nsec + ms - billion }
    else record { tv_sec = ts.tv_sec; tv_nsec = ts.tv_nsec + ms }

-- A round before its poll, for whether the semaphore was taken: it is given back, or the time moves on.
unfoldable pub round : Bool → Time → ℕ → Time × ℕ
unfolding later
round true ts sem = (ts, sem - 1 + 1)
round false ts sem = (later ts, sem)

abbrev pub nanoseconds : Time → ℕ
nanoseconds ts = ts.tv_sec * billion + ts.tv_nsec

abbrev timeouts : List Bool → ℕ
timeouts [] = 0
timeouts (true ∷ bs) = timeouts bs
timeouts (false ∷ bs) = suc (timeouts bs)

pub rounds : List Bool → Time → Time
unfolding round
rounds [] ts = ts
rounds (b ∷ bs) ts = rounds bs (round b ts 1).0

later-in_range :
    (ts : Time)
    → ts.tv_nsec < billion
    → ((later ts).tv_nsec < billion) × (nanoseconds (later ts) ≡ nanoseconds ts + ms)
unfolding later
later-in_range ts h = elim (Bool-cases (leb billion (ts.tv_nsec + ms))) [
  | inl e ↦ ground arith
  | inr e ↦ ground arith
]

-- After any rounds the nanoseconds are below a billion, and the time has moved on by a millisecond
-- for each round that timed out.
pub rounds-time :
    (bs : List Bool) (ts : Time)
    → ts.tv_nsec < billion
    → ((rounds bs ts).tv_nsec < billion)
      × (nanoseconds (rounds bs ts) ≡ nanoseconds ts + timeouts bs * ms)
unfolding rounds round
rounds-time [] ts h = omega arith
rounds-time (true ∷ bs) ts h = rounds-time bs ts h
rounds-time (false ∷ bs) ts h =
    let (l, t) = later-in_range ts h in let (l', t') = rounds-time bs (later ts) l in omega arith

-- `isPolling.test_and_set` before a poll and `clear` behind it, by the poller and by every kThread
-- that calls `nonblockingPoll`.
pub record Polling : Type 0 where
  pub is_polling : Bool
  pub polls : ℕ → Bool

pub data Step : Polling → Polling → Type 0 where
  test_and_set :
      (me : ℕ) (s : Polling)
      → s.polls me ≡ false
      → Step s (record {
        is_polling = true;
        polls = λ q.
            if ltb q me
            then s.polls q
            else if ltb me q
            then s.polls q
            else if s.is_polling
            then false
            else true;
      })
  clear :
      (me : ℕ) (s : Polling)
      → s.polls me ≡ true
      → Step s (record {
        is_polling = false;
        polls = λ q. if ltb q me then s.polls q else if ltb me q then s.polls q else false;
      })

pub data Reach : Polling → Type 0 where
  at_first : Reach (record { is_polling = false; polls = λ q. false })
  step : (s s' : Polling) → Reach s → Step s s' → Reach s'

record Alone (s : Polling) : Type 0 where
  set : (a : ℕ) → s.polls a ≡ true → s.is_polling ≡ true
  one : (a b : ℕ) → s.polls a ≡ true → s.polls b ≡ true → a ≡ b

Step-Alone : (s s' : Polling) → Step s s' → Alone s → Alone s'
Step-Alone _ _ (Step.test_and_set me s e) i = record {
  set = λ a h. ground (arith, i.set a);
  one = λ a b h k. ground (arith, i.one a b, i.set a, i.set b);
}
Step-Alone _ _ (Step.clear me s e) i = record {
  set = λ a h. ground (arith, i.one a me);
  one = λ a b h k. ground (arith, i.one a b, i.one a me, i.one b me);
}

Reach-Alone : (s : Polling) → Reach s → Alone s
Reach-Alone _ Reach.at_first = record { set = λ a h. ground arith; one = λ a b h k. ground arith }
Reach-Alone _ (Reach.step s s' r st) = Step-Alone s s' st (Reach-Alone s r)

-- Two threads never poll at once.
pub poll-alone : (s : Polling) (a b : ℕ) → Reach s → s.polls a ≡ true → s.polls b ≡ true → a ≡ b
poll-alone s a b r h k = (Reach-Alone s r).one a b h k
