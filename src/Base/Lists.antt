-- ===== src/Base/Lists.antt =====
-- Lists measured by native numbers, and lists of addresses or thread numbers without repetition.
use Prim.Native.Nat.{ℕ, zero, suc, ◌+◌, ◌-◌, min}
use mathlib.Core.Path.{◌≡◌, refl, ap}
use mathlib.Core.Logic.{inl, inr}
use mathlib.Core.Bool.{Bool, true, false, ◌||◌}
use mathlib.Core.Option.{Option, none, some}
use mathlib.Core.List.{List, [], ◌∷◌, ◌++◌, append_assoc, append-nil}
use native.Mathlib.Omega.{arith}
use u_threads.Base.Tests.{◌==◌, Bool-cases}

-- Lists that are put together in any order of the appends.
pub ruleset append_laws = (append_assoc, append-nil)

module _ {ℓ} {A : Type ℓ} where
  abbrev pub length : List A → ℕ
  length [] = 0
  length (x ∷ xs) = suc (length xs)

  abbrev pub take : ℕ → List A → List A
  take zero xs = []
  take (suc n) [] = []
  take (suc n) (x ∷ xs) = x ∷ take n xs

  abbrev pub drop : ℕ → List A → List A
  drop zero xs = xs
  drop (suc n) [] = []
  drop (suc n) (x ∷ xs) = drop n xs

  abbrev pub get_elem? : List A → ℕ → Option A
  get_elem? [] i = none
  get_elem? (x ∷ xs) zero = some x
  get_elem? (x ∷ xs) (suc i) = get_elem? xs i

  pub length-append : (xs ys : List A) → length (xs ++ ys) ≡ length xs + length ys
  length-append [] ys = omega arith
  length-append (x ∷ xs) ys = omega (arith, length-append xs ys)

  pub take-append-drop : (n : ℕ) (xs : List A) → take n xs ++ drop n xs ≡ xs
  take-append-drop zero xs = refl
  take-append-drop (suc n) [] = refl
  take-append-drop (suc n) (x ∷ xs) = rw (take-append-drop n xs)

  pub length-take : (n : ℕ) (xs : List A) → length (take n xs) ≡ min n (length xs)
  length-take zero xs = omega arith
  length-take (suc n) [] = omega arith
  length-take (suc n) (x ∷ xs) = omega (arith, length-take n xs)

  pub length-drop : (n : ℕ) (xs : List A) → length (drop n xs) ≡ length xs - n
  length-drop zero xs = omega arith
  length-drop (suc n) [] = omega arith
  length-drop (suc n) (x ∷ xs) = omega (arith, length-drop n xs)

abbrev pub has : ℕ → List ℕ → Bool
has a [] = false
has a (x ∷ xs) = (a == x) || has a xs

abbrev pub Distinct : List ℕ → Type 0
Distinct [] = Unit {0}
Distinct (x ∷ xs) = (has x xs ≡ false) × Distinct xs

-- No element of the first list is in the second.
abbrev pub Apart : List ℕ → List ℕ → Type 0
Apart [] ys = Unit {0}
Apart (x ∷ xs) ys = (has x ys ≡ false) × Apart xs ys

pub has-append : (a : ℕ) (xs ys : List ℕ) → has a (xs ++ ys) ≡ (has a xs || has a ys)
has-append a [] ys = refl
has-append a (x ∷ xs) ys = ground (arith, has-append a xs ys)

pub Distinct-append :
    (xs ys : List ℕ) → Distinct xs → Distinct ys → Apart xs ys → Distinct (xs ++ ys)
Distinct-append [] ys dx dy a = dy
Distinct-append (x ∷ xs) ys dx dy a =
    (ground (arith, has-append x xs ys), Distinct-append xs ys dx.1 dy a.1)

pub Distinct-split :
    (xs ys : List ℕ) → Distinct (xs ++ ys) → Distinct xs × Distinct ys × Apart xs ys
Distinct-split [] ys d = (tt, d, tt)
Distinct-split (x ∷ xs) ys d =
    let (dx, dy, a) = Distinct-split xs ys d.1 in
    ((ground (arith, has-append x xs ys), dx), dy, (ground (arith, has-append x xs ys), a))

pub has-take : (a n : ℕ) (xs : List ℕ) → has a xs ≡ false → has a (take n xs) ≡ false
has-take a zero xs h = refl
has-take a (suc n) [] h = refl
has-take a (suc n) (x ∷ xs) h = ground (arith, has-take a n xs)

pub has-drop : (a n : ℕ) (xs : List ℕ) → has a xs ≡ false → has a (drop n xs) ≡ false
has-drop a zero xs h = h
has-drop a (suc n) [] h = refl
has-drop a (suc n) (x ∷ xs) h = ground (arith, has-drop a n xs)

pub Distinct-take : (n : ℕ) (xs : List ℕ) → Distinct xs → Distinct (take n xs)
Distinct-take zero xs d = tt
Distinct-take (suc n) [] d = tt
Distinct-take (suc n) (x ∷ xs) d = (has-take x n xs d.0, Distinct-take n xs d.1)

pub Apart-sub :
    (xs ys zs : List ℕ)
    → Apart xs ys
    → ((a : ℕ) → has a ys ≡ false → has a zs ≡ false)
    → Apart xs zs
Apart-sub [] ys zs a sub = tt
Apart-sub (x ∷ xs) ys zs a sub = (sub x a.0, Apart-sub xs ys zs a.1 sub)

Apart-cons : (y : ℕ) (xs ys : List ℕ) → has y xs ≡ false → Apart xs ys → Apart xs (y ∷ ys)
Apart-cons y [] ys h a = tt
Apart-cons y (x ∷ xs) ys h a = (ground arith, Apart-cons y xs ys (ground arith) a.1)

Apart-nil : (xs : List ℕ) → Apart xs []
Apart-nil [] = tt
Apart-nil (x ∷ xs) = (refl, Apart-nil xs)

pub Apart-comm : (xs ys : List ℕ) → Apart xs ys → Apart ys xs
Apart-comm [] ys a = Apart-nil ys
Apart-comm (x ∷ xs) ys a = Apart-cons x ys xs a.0 (Apart-comm xs ys a.1)

pub Distinct-snoc : (x : ℕ) (xs : List ℕ) → has x xs ≡ false → Distinct xs → Distinct (xs ++ x ∷ [])
Distinct-snoc x [] h d = (refl, tt)
Distinct-snoc x (y ∷ ys) h d =
    (ground (arith, has-append y ys (x ∷ [])), Distinct-snoc x ys (ground arith) d.1)

pub has-apart : (a b : ℕ) (xs : List ℕ) → has a xs ≡ false → has b xs ≡ true → (a == b) ≡ false
has-apart a b xs out on = elim (Bool-cases (a == b)) [
  | inl t ↦ let same : a ≡ b = ground arith in absurd (ground (arith, ap (λ c. has c xs) same))
  | inr t ↦ t
]
