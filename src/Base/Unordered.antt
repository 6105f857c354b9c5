-- ===== src/Base/Unordered.antt =====
-- Lists up to their order.
use Prim.Native.Nat.{ℕ, ◌+◌}
use mathlib.Core.Path.{◌≡◌, refl, fun_ext}
use mathlib.Core.List.{List, [], ◌∷◌, ◌++◌}
use mathlib.Core.Quot
use mathlib.Core.Quot.{Quot}
use native.Mathlib.Omega.{arith}
use u_threads.Base.Tests.{◌==◌, if◌then◌else◌}

-- How often each number stands in a list.
abbrev pub occurrences : List ℕ → ℕ → ℕ
occurrences [] = λ a. 0
occurrences (x ∷ xs) = λ a. (if a == x then 1 else 0) + occurrences xs a

pub occurrences-append :
    (front back : List ℕ) (a : ℕ)
    → occurrences (front ++ back) a ≡ occurrences front a + occurrences back a
occurrences-append [] back a = omega arith
occurrences-append (x ∷ front) back a = omega (arith, occurrences-append front back a)

-- Lists whose order is forgotten.
abbrev pub Unordered : Type 0
Unordered = Quot (λ front back. occurrences front ≡ occurrences back)

abbrev pub forget_order : List ℕ → Unordered
forget_order l = Quot.mk l

pub forget_order-eq :
    (l l' : List ℕ)
    → ((a : ℕ) → occurrences l a ≡ occurrences l' a)
    → forget_order l ≡ forget_order l'
forget_order-eq l l' same = Quot.sound (fun_ext same)

-- The lists of all `ks`, one behind the other.
abbrev pub gather : List ℕ → (ℕ → List ℕ) → List ℕ
gather [] f = []
gather (k ∷ ks) f = f k ++ gather ks f

pub gather-ext :
    (ks : List ℕ) (f g : ℕ → List ℕ) → ((k : ℕ) → f k ≡ g k) → gather ks f ≡ gather ks g
gather-ext [] f g e = refl
gather-ext (k ∷ ks) f g e = rw (e k, gather-ext ks f g e) refl
