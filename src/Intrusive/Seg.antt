-- ===== src/Intrusive/Seg.antt =====
-- Chains of `next` fields: what a head pointer of a container stands for.
use u_threads.Base.{ℕ, ◌≡◌, ◌≢◌, true, false, List, [], ◌∷◌, ◌++◌, arith, update, has, Distinct}

-- From `p` the `next` fields lead through the elements `xs`, none of them `nullptr`, to `q`.
abbrev pub Seg : (ℕ → ℕ) → ℕ → List ℕ → ℕ → Type 0
Seg next p [] q = p ≡ q
Seg next p (x ∷ xs) q = (p ≡ x) × (x ≢ 0) × Seg next (next x) xs q

-- The last element of `x ∷ xs`.
abbrev pub last_of : ℕ → List ℕ → ℕ
last_of x [] = x
last_of x (y ∷ ys) = last_of y ys

pub Seg-append :
    (next : ℕ → ℕ) (p m q : ℕ) (xs ys : List ℕ)
    → Seg next p xs m
    → Seg next m ys q
    → Seg next p (xs ++ ys) q
Seg-append next p m q [] ys s t = ground arith
Seg-append next p m q (x ∷ xs) ys s t = (s.0, s.1, Seg-append next (next x) m q xs ys s.2 t)

-- A write outside the chain leaves it as it was.
pub Seg-update :
    (next : ℕ → ℕ) (a v p q : ℕ) (xs : List ℕ)
    → has a xs ≡ false
    → Seg next p xs q
    → Seg (update next a v) p xs q
Seg-update next a v p q [] out s = s
Seg-update next a v p q (x ∷ xs) out s =
    (s.0, s.1, ground (arith, Seg-update next a v (next x) q xs))

pub last_of-ne :
    (next : ℕ → ℕ) (q x : ℕ) (xs : List ℕ) → x ≢ 0 → Seg next (next x) xs q → last_of x xs ≢ 0
last_of-ne next q x [] ne s = ne
last_of-ne next q x (y ∷ ys) ne s = last_of-ne next q y ys s.1 s.2

pub has-last_of : (x : ℕ) (xs : List ℕ) → has (last_of x xs) (x ∷ xs) ≡ true
has-last_of x [] = ground arith
has-last_of x (y ∷ ys) = ground (arith, has-last_of y ys)

-- To write the last element's `next` is to lead the chain elsewhere.
pub Seg-relink :
    (next : ℕ → ℕ) (p q r x : ℕ) (xs : List ℕ)
    → Distinct (x ∷ xs)
    → Seg next p (x ∷ xs) q
    → Seg (update next (last_of x xs) r) p (x ∷ xs) r
Seg-relink next p q r x [] d s = (s.0, s.1, ground arith)
Seg-relink next p q r x (y ∷ ys) d s =
    (s.0, s.1, ground (arith, has-last_of y ys, Seg-relink next (next x) q r y ys d.1 s.2))
