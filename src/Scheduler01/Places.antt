-- ===== src/Scheduler01/Places.antt =====
-- src/runtime/schedulers/Scheduler_01.h: where the uThreads are, over all kThreads. In which order the
-- kThreads have moved them is forgotten.
use u_threads.Base.{
  Bool, ℕ, ◌+◌, ◌≡◌, refl, sym, subst, ap, ◌∙◌, inl, inr, true, false, Bool-cases, List, [], ◌∷◌,
  ◌++◌, ◌==◌, if◌then◌else◌, update, has, Distinct, arith, occurrences, occurrences-append,
  forget_order, forget_order-eq, gather, gather-ext,
}
use u_threads.Scheduler01.Switch.{System}
use u_threads.Scheduler01.Run.{Event, History, no_history, add_event, Run, start, next}
use u_threads.Scheduler01.Order.{scheduled-in_order}

gather-skip :
    (ks : List ℕ) (k : ℕ) (f : ℕ → List ℕ) (xs : List ℕ)
    → has k ks ≡ false
    → gather ks (update f k xs) ≡ gather ks f
gather-skip [] k f xs out = refl
gather-skip (j ∷ js) k f xs out =
    let ne : (j == k) ≡ false = ground arith in rw (ne, gather-skip js k f xs (ground arith)) refl

occurrences-gather-update :
    (a k : ℕ) (ks : List ℕ) (f : ℕ → List ℕ) (ys : List ℕ)
    → Distinct ks
    → occurrences (gather ks (update f k (f k ++ ys))) a
      ≡ occurrences (gather ks f) a + (if has k ks then occurrences ys a else 0)
occurrences-gather-update a k [] f ys d = refl
occurrences-gather-update a k (j ∷ js) f ys d = elim (Bool-cases (k == j)) [
  | inl t ↦
      let same : k ≡ j = ground arith in
      let jk : (j == k) ≡ true = ground arith in
      let out : has k js ≡ false = subst (λ i. has i js ≡ false) (sym same) d.0 in
      rw
        (
          t,
          jk,
          gather-skip js k f (f k ++ ys) out,
          occurrences-append (f k ++ ys) (gather js f) a,
          occurrences-append (f k) ys a,
          occurrences-append (f j) (gather js f) a,
          same,
        )
        (omega arith)
  | inr t ↦
      let jk : (j == k) ≡ false = ground arith in
      rw
        (
          t,
          jk,
          occurrences-append (f j) (gather js (update f k (f k ++ ys))) a,
          occurrences-append (f j) (gather js f) a,
          occurrences-gather-update a k js f ys d.1,
        )
        (omega arith)
]

-- The kThreads of the list are all that have moved uThreads.
abbrev pub Covers : List ℕ → History → Type 0
Covers ks h = (k : ℕ) → has k ks ≡ false → h.moved_by k ≡ []

append-nil_left : (xs ys : List ℕ) → xs ++ ys ≡ [] → (xs ≡ []) × (ys ≡ [])
append-nil_left [] ys e = (refl, e)
append-nil_left (x ∷ xs) ys e = absurd (ground (arith, e))

Covers-before : (ks : List ℕ) (h : History) (e : Event) → Covers ks (add_event h e) → Covers ks h
unfolding add_event
Covers-before ks h e c k out = elim (Bool-cases (k == e.kt)) [
  | inl t ↦
      let same : k ≡ e.kt = ground arith in
      let now : (add_event h e).moved_by k ≡ h.moved_by e.kt ++ e.moved = rw t refl in
      ap h.moved_by same ∙ (append-nil_left (h.moved_by e.kt) e.moved (sym now ∙ c k out)).0
  | inr t ↦ let now : (add_event h e).moved_by k ≡ h.moved_by k = rw t refl in sym now ∙ c k out
]

-- An event of a kThread outside the list has moved nothing.
outside-moved :
    (ks : List ℕ) (h : History) (e : Event)
    → Covers ks (add_event h e)
    → has e.kt ks ≡ false
    → e.moved ≡ []
unfolding add_event
outside-moved ks h e c out =
    let same : (e.kt == e.kt) ≡ true = ground arith in
    let now : (add_event h e).moved_by e.kt ≡ h.moved_by e.kt ++ e.moved = rw same refl in
    (append-nil_left (h.moved_by e.kt) e.moved (sym now ∙ c e.kt out)).1

event-gathered :
    (a : ℕ) (ks : List ℕ) (h : History) (e : Event)
    → Distinct ks
    → Covers ks (add_event h e)
    → occurrences h.moved a ≡ occurrences (gather ks h.moved_by) a
    → occurrences (add_event h e).moved a ≡ occurrences (gather ks (add_event h e).moved_by) a
unfolding add_event
event-gathered a ks h e d c i =
    let more = occurrences-gather-update a e.kt ks h.moved_by e.moved d in
    elim (Bool-cases (has e.kt ks)) [
      | inl on ↦ rw (occurrences-append h.moved e.moved a, more, on, i) refl
      | inr off ↦
          rw
            (
              occurrences-append h.moved e.moved a,
              more,
              off,
              i,
              ap (λ l. occurrences l a) (outside-moved ks h e c off),
            )
            refl
    ]

gather-nil : (ks : List ℕ) → gather ks (λ k. []) ≡ []
gather-nil [] = refl
gather-nil (k ∷ ks) = gather-nil ks

Run-gathered :
    (a : ℕ) (ks : List ℕ) (late : Bool) (h : History) (s : System)
    → Run late h s
    → Distinct ks
    → Covers ks h
    → occurrences h.moved a ≡ occurrences (gather ks h.moved_by) a
unfolding no_history
Run-gathered a ks late h s start d c = rw (gather-nil ks) refl
Run-gathered a ks late h s' (next {h = h0} {s = s} e call run en eq) d c =
    event-gathered a ks h0 e d c (Run-gathered a ks late h0 s run d (Covers-before ks h0 e c))

-- No uThread is lost or runs twice, whichever kThreads share the run queue: up to their order, the
-- uThreads that were scheduled are those in the run queue and those that the kThreads have run or hold
-- in their local queues, as often.
pub places-kept :
    (ks : List ℕ) (late : Bool) (h : History) (s : System)
    → Run late h s
    → Distinct ks
    → Covers ks h
    → forget_order h.pushed
      ≡ forget_order (gather ks (λ k. h.ran_by k ++ s.scheduler.lrq k) ++ s.scheduler.queue)
places-kept ks late h s run d c =
    let (all, own) = scheduled-in_order late h s run in
    let held : ℕ → List ℕ = λ k. h.ran_by k ++ s.scheduler.lrq k in
    forget_order-eq h.pushed (gather ks held ++ s.scheduler.queue) (λ a.
      rw
        (
          sym all,
          occurrences-append h.moved s.scheduler.queue a,
          occurrences-append (gather ks held) s.scheduler.queue a,
          Run-gathered a ks late h s run d c,
          gather-ext ks held h.moved_by own,
        )
        refl)
