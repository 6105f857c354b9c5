-- ===== src/Mpsc/Linked.antt =====
-- The order in which elements went through `tail`: each is linked to the one behind it, or some
-- insert has yet to do so.
use u_threads.Base.{
  ℕ, ◌≡◌, refl, ◌≢◌, ◌⊎◌, inl, inr, true, false, List, [], ◌∷◌, ◌++◌, arith, update, has, Distinct,
  has-append,
}
use u_threads.Intrusive.Seg.{Seg, last_of, has-last_of}

abbrev pub Linked : (ℕ → ℕ) → (ℕ → ℕ) → List ℕ → Type 0
Linked next pending [] = ⊥
Linked next pending (a ∷ []) = (next a ≡ 0) × (pending a ≡ 0)
Linked next pending (a ∷ b ∷ r) =
    (((next a ≡ b) × (pending a ≡ 0)) ⊎ ((next a ≡ 0) × (pending a ≡ b)))
    × Linked next pending (b ∷ r)

module _ (next pending : ℕ → ℕ) where
  pub Linked-last :
      (x : ℕ) (xs : List ℕ)
      → Linked next pending (x ∷ xs)
      → (next (last_of x xs) ≡ 0) × (pending (last_of x xs) ≡ 0)
  Linked-last x [] l = l
  Linked-last x (y ∷ ys) l = Linked-last y ys l.1

  -- A pending store is made.
  pub Linked-link :
      (a : ℕ) (xs : List ℕ)
      → pending a ≢ 0
      → Linked next pending xs
      → Linked (update next a (pending a)) (update pending a 0) xs
  Linked-link a [] ne l = l
  Linked-link a (x ∷ []) ne l = ground arith
  Linked-link a (x ∷ y ∷ r) ne l = (ground arith, Linked-link a (y ∷ r) ne l.1)

  -- A write outside the order does not matter.
  pub Linked-store :
      (a v : ℕ) (xs : List ℕ)
      → has a xs ≡ false
      → Linked next pending xs
      → Linked (update next a v) pending xs
  Linked-store a v [] o l = l
  Linked-store a v (x ∷ []) o l = ground arith
  Linked-store a v (x ∷ y ∷ r) o l = (ground arith, Linked-store a v (y ∷ r) (ground arith) l.1)

  -- A linked chain, cut off at its end, none of which waits for a store.
  pub Linked-Seg :
      (b w v x : ℕ) (xs : List ℕ)
      → Seg next x (x ∷ xs) v
      → Distinct (x ∷ xs)
      → has b (x ∷ xs) ≡ false
      → ((a : ℕ) → has a (x ∷ xs) ≡ true → pending a ≡ 0)
      → Linked (update next (last_of x xs) 0) (update pending b w) (x ∷ xs)
  Linked-Seg b w v x [] s d o z = ground (arith, z x)
  Linked-Seg b w v x (y ∷ ys) s d o z = (
    inl (ground (arith, has-last_of y ys), ground (arith, z x)),
    Linked-Seg b w v y ys (refl, s.2.1, s.2.2) d.1 (ground arith) (λ a i. ground (arith, z a)),
  )

  -- The exchange of `insert`, with the chain `y ∷ ys`.
  pub Linked-exchange :
      (v x y : ℕ) (xs ys : List ℕ)
      → Linked next pending (x ∷ xs)
      → Seg next y (y ∷ ys) v
      → Distinct ((x ∷ xs) ++ y ∷ ys)
      → ((a : ℕ) → has a (y ∷ ys) ≡ true → pending a ≡ 0)
      → Linked (update next (last_of y ys) 0) (update pending (last_of x xs) y) ((x ∷ xs) ++ y ∷ ys)
  Linked-exchange v x y [] ys l s d z =
      (inr (ground (arith, has-last_of y ys), ground arith), Linked-Seg x y v y ys s d.1 d.0 z)
  Linked-exchange v x y (x' ∷ xs) ys l s d z =
      let hx = has-append x xs (y ∷ ys) in
      let hl = has-last_of y ys in
      let hm = has-last_of x' xs in (ground arith, Linked-exchange v x' y xs ys l.1 s d.1 z)
