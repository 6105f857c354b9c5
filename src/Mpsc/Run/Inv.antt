-- ===== src/Mpsc/Run/Inv.antt =====
-- The invariant of a `BlockingMPSCQueue`, over the order in which elements went through `tail`.
use u_threads.Base.{
  ℕ, ◌%◌, ◌≡◌, refl, ◌≢◌, ◌⊎◌, inr, true, false, List, [], ◌∷◌, ◌++◌, arith, ◌==◌, if◌then◌else◌,
  has, Distinct,
}
use u_threads.Intrusive.Queue.Laws.{tail_of}
use u_threads.Mpsc.{
  MpscQueue, Pc, outside, cas, wait_stub, reinsert, relink, wait_next, is_marked, unmark, mark,
  init,
}
use u_threads.Mpsc.Linked.{Linked}
use u_threads.Mpsc.Run.{Aligned}

abbrev pub StartsAt : ℕ → List ℕ → Type 0
StartsAt p [] = ⊥
StartsAt p (x ∷ xs) = p ≡ x

-- What is known at each place of `pop()`.
abbrev pub Knows : ℕ → Pc → MpscQueue → List ℕ → Type 0
Knows stub outside q xs =
    (has stub xs ≡ true) × ((is_marked q.tail ≡ false) ⊎ ((q.tail ≡ mark stub) × (xs ≡ stub ∷ [])))
Knows stub cas q xs = (has stub xs ≡ true) × (is_marked q.tail ≡ false) × (q.head ≡ stub)
Knows stub wait_stub q xs =
    (has stub xs ≡ true) × (is_marked q.tail ≡ false) × (q.head ≡ stub) × (q.tail ≢ stub)
Knows stub reinsert q xs = (has stub xs ≡ false) × (is_marked q.tail ≡ false)
Knows stub (relink p) q xs =
    (has stub xs ≡ true) × (is_marked q.tail ≡ false) × (q.head ≢ stub) × (q.pending p ≡ stub)
Knows stub wait_next q xs = (has stub xs ≡ true) × (is_marked q.tail ≡ false) × (q.head ≢ stub)

pub record Shape (stub : ℕ) (q : MpscQueue) (xs : List ℕ) : Type 0 where
  pub stub_aligned : Aligned (stub ∷ [])
  pub linked : Linked q.next q.pending xs
  pub first : StartsAt q.head xs
  pub last : unmark q.tail ≡ tail_of xs
  pub distinct : Distinct xs
  pub aligned : Aligned xs
  pub quiet : (a : ℕ) → has a xs ≡ false → q.pending a ≡ 0

pub record Inv (stub : ℕ) (q : MpscQueue) (xs : List ℕ) : Type 0 where
  pub shape : Shape stub q xs
  pub knows : Knows stub q.pc q xs

-- The elements of the order but for the stub: what the queue holds.
abbrev pub without : ℕ → List ℕ → List ℕ
without stub [] = []
without stub (x ∷ xs) = if x == stub then without stub xs else x ∷ without stub xs

pub unmark-even : (p : ℕ) → p % 2 ≡ 0 → (unmark p ≡ p) × (is_marked p ≡ false)
unfolding unmark is_marked
unmark-even p e = ground arith

pub unmark-mark : (p : ℕ) → p % 2 ≡ 0 → (unmark (mark p) ≡ p) × (is_marked (mark p) ≡ true)
unfolding unmark is_marked mark
unmark-mark p e = ground arith

pub unmarked : (p : ℕ) → is_marked p ≡ false → unmark p ≡ p
unfolding unmark is_marked
unmarked p e = ground arith

pub init-Inv : (stub : ℕ) → Aligned (stub ∷ []) → Inv stub (init stub) (stub ∷ [])
unfolding init
init-Inv stub al = record {
  shape = record {
    stub_aligned = al;
    linked = (refl, refl);
    first = refl;
    last = (unmark-mark stub al.1).0;
    distinct = (refl, tt);
    aligned = al;
    quiet = λ a o. refl;
  };
  knows = (ground arith, inr (refl, refl));
}

pub without-append :
    (stub : ℕ) (xs ys : List ℕ) → without stub (xs ++ ys) ≡ without stub xs ++ without stub ys
without-append stub [] ys = refl
without-append stub (x ∷ xs) ys = ground (arith, without-append stub xs ys)

pub without-absent : (stub : ℕ) (xs : List ℕ) → has stub xs ≡ false → without stub xs ≡ xs
without-absent stub [] h = refl
without-absent stub (x ∷ xs) h = ground (arith, without-absent stub xs)

pub Aligned-append : (xs ys : List ℕ) → Aligned xs → Aligned ys → Aligned (xs ++ ys)
Aligned-append [] ys a b = b
Aligned-append (x ∷ xs) ys a b = (a.0, a.1, Aligned-append xs ys a.2 b)

pub Aligned-last :
    (x : ℕ) (xs : List ℕ) → Aligned (x ∷ xs) → (tail_of (x ∷ xs) ≢ 0) × (tail_of (x ∷ xs) % 2 ≡ 0)
Aligned-last x [] a = (a.0, a.1)
Aligned-last x (y ∷ ys) a = Aligned-last y ys a.2

-- An element apart from what the queue holds, and not the stub, is not in the order.
pub Apart-order :
    (stub a : ℕ) (xs : List ℕ)
    → (a == stub) ≡ false
    → has a (without stub xs) ≡ false
    → has a xs ≡ false
Apart-order stub a [] ne o = refl
Apart-order stub a (x ∷ xs) ne o = ground (arith, Apart-order stub a xs ne)
