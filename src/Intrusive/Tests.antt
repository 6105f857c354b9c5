-- ===== src/Intrusive/Tests.antt =====
-- The theorems on intrusive queues at two small queues: 4, 5 and 6, 7, 8.
use u_threads.Base.{◌≡◌, refl, [], ◌∷◌, some, arith, if◌then◌else◌, ◌==◌}
use u_threads.Intrusive.{Links}
use u_threads.Intrusive.Queue.{IntrusiveQueue, empty_queue, transfer_from, transfer_all_from}
use u_threads.Intrusive.Queue.Laws.{IsQueue, SameOutside}
use u_threads.Intrusive.Queue.Moves.{transfer_from-take, transfer_all_from-append}

abbrev links : Links
links = record {
  prev = λ _. 0;
  next = λ p. if p == 4 then 5 else if p == 6 then 7 else if p == 7 then 8 else 0;
}

abbrev left : IntrusiveQueue
left = record { head = 4; tail = 5 }

abbrev right : IntrusiveQueue
right = record { head = 6; tail = 8 }

left-IsQueue : IsQueue links left (4 ∷ 5 ∷ [])
left-IsQueue = record { chain = omega arith; tail = refl; distinct = (refl, (refl, tt)) }

right-IsQueue : IsQueue links right (6 ∷ 7 ∷ 8 ∷ [])
right-IsQueue = record { chain = omega arith; tail = refl; distinct = (refl, (refl, (refl, tt))) }

transfer_from-take_case :
    (q' : IntrusiveQueue) × (eq' : IntrusiveQueue) × (h' : Links) × (transfer_from 2 left right
        links
      ≡ some (2, q', eq', h'))
    × IsQueue h' q' (4 ∷ 5 ∷ 6 ∷ 7 ∷ [])
    × IsQueue h' eq' (8 ∷ [])
    × SameOutside (4 ∷ 5 ∷ 6 ∷ 7 ∷ []) links h'
transfer_from-take_case =
    transfer_from-take links left right 1 6 (4 ∷ 5 ∷ []) (7 ∷ 8 ∷ []) left-IsQueue right-IsQueue
      (refl, (refl, tt))

transfer_all_from_of_two :
    (q' : IntrusiveQueue) × (h' : Links) × (transfer_all_from left right links
      ≡ some (q', empty_queue, h'))
    × IsQueue h' q' (4 ∷ 5 ∷ 6 ∷ 7 ∷ 8 ∷ [])
    × SameOutside (4 ∷ 5 ∷ 6 ∷ 7 ∷ 8 ∷ []) links h'
transfer_all_from_of_two =
    transfer_all_from-append links left right 6 (4 ∷ 5 ∷ []) (7 ∷ 8 ∷ []) left-IsQueue right-IsQueue
      (refl, (refl, tt))
