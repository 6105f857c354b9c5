-- ===== src/Io/Cache.antt =====
-- src/io/IOHandler.h: `PollCache`, a queue of unused poll data. The addresses that `new` gives when it
-- is empty are an argument.
use u_threads.Base.{
  ℕ, ◌≡◌, ◌≢◌, refl, inl, inr, true, false, List, [], ◌∷◌, ◌++◌, Option, some, ◌>>=◌, if◌then◌else◌,
  Distinct, Distinct-split, Apart, Apart-comm, subst, sym, ◌∙◌, arith, append_assoc, append-nil,
}
use u_threads.Intrusive.{Links}
use u_threads.Intrusive.Queue.{IntrusiveQueue, empty, push, pop}
use u_threads.Intrusive.Queue.Laws.{IsQueue, SameOutside, push-append, pop-cons, empty-IsQueue}

-- The loop that fills the cache.
pub fill : List ℕ → IntrusiveQueue → Links → Option (IntrusiveQueue × Links)
fill [] q h = some (q, h)
fill (pd ∷ pds) q h = let rest = fill pds in do (q', h') ← push pd q h; rest q' h'

-- `getPollData`, for the addresses of the new ones: `front` and `pop`.
pub get_poll_data : List ℕ → IntrusiveQueue → Links → Option (ℕ × IntrusiveQueue × Links)
unfolding fill
get_poll_data news q h = do
  (q', h') ← if empty q then fill news q h else some (q, h)
  (pd, q'', h'') ← pop q' h'
  some (q'.head, q'', h'')

pub push_poll_data : ℕ → IntrusiveQueue → Links → Option (IntrusiveQueue × Links)
push_poll_data pd q h = push pd q h

-- With data in the cache the first of them is given, and the others stay.
pub get_poll_data-cached :
    (news : List ℕ) (h : Links) (q : IntrusiveQueue) (x : ℕ) (xs : List ℕ)
    → IsQueue h q (x ∷ xs)
    → (q' : IntrusiveQueue) × (h' : Links) × (get_poll_data news q h ≡ some (x, q', h'))
      × IsQueue h' q' xs
unfolding get_poll_data
get_poll_data-cached news h q x xs is =
    let (q', h', e, is', gone, same) = pop-cons h q x xs is in
    let full : empty q ≡ false = elim (empty-IsQueue h q (x ∷ xs) is) [
      | inl (e, z) ↦ ground arith
      | inr (f, z) ↦ f
    ] in
    (q', h', rw (full, e, is.chain.0) refl, is')

-- New elements: none is `nullptr`, and none is linked to another.
pub New : Links → List ℕ → Type 0
New h [] = Unit {0}
New h (y ∷ ys) = (y ≢ 0) × (h.next y ≡ 0) × New h ys

New-same : (h g : Links) (xs ys : List ℕ) → SameOutside xs h g → Apart ys xs → New h ys → New g ys
unfolding New
New-same h g xs [] s a n = tt
New-same h g xs (y ∷ ys) s a n = (n.0, s.1 y a.0 ∙ n.1, New-same h g xs ys s a.1 n.2)

fill-append :
    (news : List ℕ) (h : Links) (q : IntrusiveQueue) (xs : List ℕ)
    → IsQueue h q xs
    → New h news
    → Distinct (xs ++ news)
    → (q' : IntrusiveQueue) × (h' : Links) × (fill news q h ≡ some (q', h'))
      × IsQueue h' q' (xs ++ news)
unfolding fill New
fill-append [] h q xs is n d = (q, h, refl, rw (append-nil xs) is)
fill-append (y ∷ ys) h q xs is n d =
    let assoc = append_assoc xs (y ∷ []) ys in
    let d' : Distinct ((xs ++ y ∷ []) ++ ys) = subst Distinct (sym assoc) d in
    let (d1, dys, ap1) = Distinct-split (xs ++ y ∷ []) ys d' in
    let (dx, dy, apart) = Distinct-split xs (y ∷ ys) d in
    let (q1, h1, e, is1, same) = push-append h q y xs is n.0 n.1 d1 in
    let n1 = New-same h h1 xs ys same (Apart-comm xs (y ∷ ys) apart).1 n.2 in
    let (q2, h2, e2, is2) = fill-append ys h1 q1 (xs ++ y ∷ []) is1 n1 d' in
    (q2, h2, rw (e, e2) refl, subst (λ l. IsQueue h2 q2 l) assoc is2)

-- An empty cache is filled first: the first new one is given, and the others stay.
pub get_poll_data-empty :
    (x : ℕ) (news : List ℕ) (h : Links) (q : IntrusiveQueue)
    → IsQueue h q []
    → New h (x ∷ news)
    → Distinct (x ∷ news)
    → (q' : IntrusiveQueue) × (h' : Links) × (get_poll_data (x ∷ news) q h ≡ some (x, q', h'))
      × IsQueue h' q' news
unfolding get_poll_data
get_poll_data-empty x news h q is n d =
    let (q1, h1, e1, is1) = fill-append (x ∷ news) h q [] is n d in
    let (q', h', e, is', gone, same) = pop-cons h1 q1 x news is1 in
    let none_left : empty q ≡ true = elim (empty-IsQueue h q [] is) [
      | inl (f, z) ↦ f
      | inr (f, z) ↦ ground (arith, z refl)
    ] in
    (q', h', rw (none_left, e1, e, is1.chain.0) refl, is')
