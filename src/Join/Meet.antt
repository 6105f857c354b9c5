-- ===== src/Join/Meet.antt =====
-- The caller of `join` and the uThread that ends meet in either order, and the latter does not end
-- before the former is through.
use u_threads.Base.{ℕ, ◌+◌, ◌<◌, ◌≡◌, refl, ◌⊎◌, inl, inr, Bool, true, false, List, [], ◌∷◌, arith}
use u_threads.Join.{
  Pc, Joinable, before, in_wait, woken, to_post, to_take, in_take, finished, enter, enter_at,
  leave_wait, post, take, new_joinable,
}
use u_threads.Join.Run.{Step, Reach}

-- The states of the two, with `join_wait` and the counter.
abbrev Stage : Joinable → Type 0
Stage s =
    ((s.pc true ≡ before) × (s.pc false ≡ before) × (s.join_wait ≡ []) × (s.after_join ≡ 0))
    ⊎ ((s.pc true ≡ in_wait)
        × (s.pc false ≡ before)
        × (s.join_wait ≡ true ∷ [])
        × (s.after_join ≡ 0))
    ⊎ ((s.pc true ≡ before)
        × (s.pc false ≡ in_wait)
        × (s.join_wait ≡ false ∷ [])
        × (s.after_join ≡ 0))
    ⊎ ((s.pc true ≡ finished) × (s.pc false ≡ woken) × (s.join_wait ≡ []))
    ⊎ ((s.pc true ≡ woken) × (s.pc false ≡ to_take) × (s.join_wait ≡ []) × (s.after_join ≡ 0))
    ⊎ ((s.pc true ≡ woken) × (s.pc false ≡ in_take) × (s.join_wait ≡ []) × (s.after_join ≡ 0))
    ⊎ ((s.pc true ≡ to_post) × (s.pc false ≡ to_take) × (s.join_wait ≡ []) × (s.after_join ≡ 0))
    ⊎ ((s.pc true ≡ to_post) × (s.pc false ≡ in_take) × (s.join_wait ≡ []) × (s.after_join ≡ 0))
    ⊎ ((s.pc true ≡ finished) × (s.pc false ≡ to_take) × (s.join_wait ≡ []) × (s.after_join ≡ 1))
    ⊎ ((s.pc true ≡ finished) × (s.pc false ≡ finished) × (s.join_wait ≡ []))

enter-Stage :
    (caller : Bool) (l : List Bool) (s : Joinable)
    → s.join_wait ≡ l
    → s.pc caller ≡ before
    → Stage s
    → Stage (enter_at caller l s)
unfolding enter_at
enter-Stage true [] s l e g = ground arith
enter-Stage true (true ∷ bs) s l e g = ground arith
enter-Stage true (false ∷ bs) s l e g = ground arith
enter-Stage false [] s l e g = ground arith
enter-Stage false (true ∷ bs) s l e g = ground arith
enter-Stage false (false ∷ bs) s l e g = ground arith

Step-Stage : (s s' : Joinable) → Step s s' → Stage s → Stage s'
unfolding enter leave_wait post take
Step-Stage _ _ (Step.enters true s e) g = enter-Stage true s.join_wait s refl e g
Step-Stage _ _ (Step.enters false s e) g = enter-Stage false s.join_wait s refl e g
Step-Stage _ _ (Step.leaves true s e) g = ground arith
Step-Stage _ _ (Step.leaves false s e) g = ground arith
Step-Stage _ _ (Step.posts s e) g = ground arith
Step-Stage _ _ (Step.takes s e) g = ground arith

pub Reach-Stage : (s : Joinable) → Reach s → Stage s
unfolding new_joinable
Reach-Stage _ Reach.at_first = inl (refl, refl, refl, refl)
Reach-Stage _ (Reach.step s s' r st) = Step-Stage s s' st (Reach-Stage s r)

-- The uThread that ends leaves its call only when the caller of `join` is through with its fields.
pub end-joined : (s : Joinable) → Reach s → s.pc false ≡ finished → s.pc true ≡ finished
end-joined s r e = let g = Reach-Stage s r in ground arith

-- How many steps a caller is away from the end at most.
abbrev pub left : Pc → ℕ
left before = 3
left in_wait = 2
left woken = 2
left to_post = 1
left to_take = 1
left in_take = 0
left finished = 0

-- From every state that is reached, unless both are through, there is a step, and it brings the end
-- nearer: after at most six steps both are through.
pub meet-goes_on :
    (s : Joinable)
    → Reach s
    → ((s.pc true ≡ finished) × (s.pc false ≡ finished))
      ⊎ ((s' : Joinable) × Step s s'
          × (left (s'.pc true) + left (s'.pc false) < left (s.pc true) + left (s.pc false)))
unfolding enter enter_at leave_wait post take
meet-goes_on s r = elim (Reach-Stage s r) [
  | inl (a, b, l, n) ↦ inr (enter true s, Step.enters true s a, rw l (ground arith))
  | inr (inl (a, b, l, n)) ↦ inr (enter false s, Step.enters false s b, rw l (ground arith))
  | inr (inr (inl (a, b, l, n))) ↦ inr (enter true s, Step.enters true s a, rw l (ground arith))
  | inr (inr (inr (inl (a, b, l)))) ↦ inr (leave_wait false s, Step.leaves false s b, ground arith)
  | inr (inr (inr (inr (inl (a, b, l, n))))) ↦
      inr (leave_wait true s, Step.leaves true s a, ground arith)
  | inr (inr (inr (inr (inr (inl (a, b, l, n)))))) ↦
      inr (leave_wait true s, Step.leaves true s a, ground arith)
  | inr (inr (inr (inr (inr (inr (inl (a, b, l, n))))))) ↦
      inr (post s, Step.posts s a, ground arith)
  | inr (inr (inr (inr (inr (inr (inr (inl (a, b, l, n)))))))) ↦
      inr (post s, Step.posts s a, ground arith)
  | inr (inr (inr (inr (inr (inr (inr (inr (inl (a, b, l, n))))))))) ↦
      inr (take s, Step.takes s b, ground arith)
  | inr (inr (inr (inr (inr (inr (inr (inr (inr (a, b, l))))))))) ↦ inl (a, b)
]
