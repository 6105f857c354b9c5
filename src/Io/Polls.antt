-- ===== src/Io/Polls.antt =====
-- The events of one call of `poll`.
use u_threads.Base.{
  ℕ, ◌+◌, ◌≡◌, refl, ap, Bool, true, false, List, [], ◌∷◌, ◌++◌, some, ltb, arith, length,
  length-append, Option-cases, Bool-cases, inl, inr, append_assoc, append-nil,
}
use u_threads.Io.{Handler, Events, poll, poll_events, poll_event, poll_flag, unblock, reads, writes}

-- The bulk list grows by what the counter counts.
Counts : ℕ → List ℕ → Handler → Type 0
Counts c bulk h = (more : List ℕ) × (h.bulk ≡ bulk ++ more) × (h.unblock_counter ≡ c + length more)

poll_flag-Counts :
    (flag is_read : Bool) (p c : ℕ) (bulk : List ℕ) (h : Handler)
    → Counts c bulk h
    → Counts c bulk (poll_flag flag is_read p h)
unfolding poll_flag Counts
poll_flag-Counts false is_read p c bulk h k = k
poll_flag-Counts true is_read p c bulk h (more, e, n) =
    elim (Option-cases (unblock is_read (h.pds p)).1) [
      | inl z ↦ (more, rw (z, append-nil h.bulk) e, rw z n)
      | inr (ut, z) ↦ (
        more ++ ut ∷ [],
        rw (z, e) (append_assoc bulk more (ut ∷ [])),
        rw z (omega (arith, n, length-append more (ut ∷ []))),
      )
    ]

poll_events-Counts :
    (evs : List (ℕ × Events)) (c : ℕ) (bulk : List ℕ) (h : Handler)
    → Counts c bulk h
    → Counts c bulk (poll_events evs h)
unfolding poll_events poll_event
poll_events-Counts [] c bulk h k = k
poll_events-Counts ((p, ev) ∷ evs) c bulk h k =
    poll_events-Counts evs c bulk _ (
      poll_flag-Counts (writes ev) false p c bulk _ (poll_flag-Counts (reads ev) true p c bulk h k))

length-zero : (xs : List ℕ) → length xs ≡ 0 → xs ≡ []
length-zero [] e = refl
length-zero (x ∷ xs) e = ground arith

-- `poll` gives the bulk push every uThread that it unblocked, and returns how many they are.
pub poll-counts :
    (evs : List (ℕ × Events)) (h : Handler)
    → h.bulk ≡ []
    → ((poll (some evs) h).0 ≡ some (length (poll (some evs) h).1))
      × ((poll (some evs) h).2.bulk ≡ [])
unfolding poll Counts
poll-counts evs h e =
    let h0 : Handler = record h { unblock_counter = 0 } in
    let k : Counts 0 [] h0 = ([], e, refl) in
    let (more, l, n) = poll_events-Counts evs 0 [] h0 k in
    elim (Bool-cases (ltb 0 (poll_events evs h0).unblock_counter)) [
      | inl s ↦ rw (s, l) (ap some (omega (arith, n)), refl)
      | inr s ↦
          let z : length more ≡ 0 = ground arith in
          rw s (ap some (omega (arith, n, z)), rw l (length-zero more z))
    ]
