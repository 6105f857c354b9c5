-- ===== src/Intrusive/Ring/Tests.antt =====
-- Two rings of `IntrusiveList`.
use u_threads.Base.{ℕ, ◌≡◌, refl, false, [], ◌∷◌, Option, none, some, ◌==◌, if◌then◌else◌, arith}
use u_threads.Intrusive.{Links}
use u_threads.Intrusive.Ring.{insert_after, push_back, ring_empty}
use u_threads.Intrusive.Ring.Laws.{IsRing}
use u_threads.Intrusive.Ring.Many.{
  walk, cut, splice_back, pop_back, remove_many, remove_all, transfer_from, transfer_all_from,
}
use u_threads.Intrusive.Ring.Undo.{SameLinks, push_back-pop_back}
use u_threads.Intrusive.Ring.All.{Separate, remove_all-stale, transfer_all_from-both}

-- The anchors are 1 and 2; the rings hold 4 and 5, and 6.
abbrev links : Links
links = record {
  prev = λ p.
      if p == 1
      then 5
      else if p == 4
      then 1
      else if p == 5
      then 4
      else if p == 2
      then 6
      else if p == 6
      then 2
      else 0;
  next = λ p.
      if p == 1
      then 4
      else if p == 4
      then 5
      else if p == 5
      then 1
      else if p == 2
      then 6
      else if p == 6
      then 2
      else 0;
}

two-IsRing : IsRing links 1 (4 ∷ 5 ∷ [])
two-IsRing = record {
  chain = ground arith;
  distinct = (refl, (refl, (refl, tt)));
  positive = ground arith;
}

one-IsRing : IsRing links 2 (6 ∷ [])
one-IsRing = record { chain = ground arith; distinct = (refl, (refl, tt)); positive = ground arith }

rings-Separate : Separate 1 (4 ∷ 5 ∷ []) 2 (6 ∷ [])
rings-Separate c on = ground (arith, on)

push_back-pop_back_example :
    (h1 : Links) × (h2 : Links) × (push_back 1 9 links ≡ some h1)
    × (pop_back 1 h1 ≡ some (9, h2))
    × SameLinks links h2
push_back-pop_back_example =
    push_back-pop_back links 1 9 (4 ∷ 5 ∷ []) two-IsRing (ground arith) refl (refl, refl)

transfer_all_from-both_case :
    (h' : Links) × (transfer_all_from 1 2 links ≡ some h')
    × IsRing h' 1 (4 ∷ 5 ∷ 6 ∷ [])
    × IsRing h' 2 []
transfer_all_from-both_case =
    transfer_all_from-both links 1 2 6 (4 ∷ 5 ∷ []) [] two-IsRing one-IsRing rings-Separate

removed_all :
    (h' : Links) × (remove_all 1 links ≡ some (5, h'))
    × (ring_empty 1 h' ≡ false)
    × (h'.next 1 ≡ 4)
    × (h'.next 5 ≡ 0)
removed_all = remove_all-stale links 1 4 (5 ∷ []) two-IsRing

-- More are asked for than there are: the count is set.
abbrev counted : Option (ℕ × ℕ × Links) → ℕ × ℕ
counted none = (0, 0)
counted (some (last, count, h)) = (last, count)

last_and_count : counted (remove_many 1 4 7 links) ≡ (5, 2)
unfolding remove_many walk cut
last_and_count = refl

moved_one : (h : Links) × (transfer_from 2 1 1 links ≡ some (1, h)) × IsRing h 2 (6 ∷ 4 ∷ [])
unfolding transfer_from remove_many walk cut splice_back insert_after
moved_one = (
  _,
  refl,
  record { chain = ground arith; distinct = (refl, (refl, (refl, tt))); positive = ground arith },
)
