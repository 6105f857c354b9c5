-- ===== src/Intrusive/Ring/Undo.antt =====
-- `IntrusiveList`: what `push_back` writes is undone by `pop_back`.
use u_threads.Base.{ℕ, ◌≡◌, ◌≢◌, refl, ap, false, List, ◌∷◌, some, ◌==◌, update, has, arith}
use u_threads.Intrusive.{Links}
use u_threads.Intrusive.Seg.{last_of, has-last_of}
use u_threads.Intrusive.Ring.{remove, push_back}
use u_threads.Intrusive.Ring.Laws.{
  IsRing, Chain-last, last_of-positive, inserted, push_back-inserted,
}
use u_threads.Intrusive.Ring.Many.{pop_back}

-- Two memories with the same links everywhere.
abbrev pub SameLinks : Links → Links → Type 0
SameLinks h h' = (a : ℕ) → (h'.next a ≡ h.next a) × (h'.prev a ≡ h.prev a)

pop_back-removed :
    (h : Links) (anchor e b n : ℕ)
    → (anchor == 0) ≡ false
    → (e == 0) ≡ false
    → (b == 0) ≡ false
    → (n == 0) ≡ false
    → h.prev anchor ≡ e
    → h.prev e ≡ b
    → h.next e ≡ n
    → pop_back anchor h
      ≡ some (
        e,
        record { next = update (update h.next b n) e 0; prev = update (update h.prev n b) e 0 },
      )
unfolding pop_back remove
pop_back-removed h anchor e b n a ne nb nn p q r = rw (a, p, ne, q, r, nb, nn) refl

pop_back-inserted :
    (h : Links) (anchor e b : ℕ)
    → anchor ≢ 0
    → e ≢ 0
    → b ≢ 0
    → e ≢ b
    → e ≢ anchor
    → h.prev anchor ≡ b
    → h.next b ≡ anchor
    → h.next e ≡ 0
    → h.prev e ≡ 0
    → (h' : Links) × (pop_back anchor (inserted b e anchor h) ≡ some (e, h')) × SameLinks h h'
unfolding inserted
pop_back-inserted h anchor e b a ne nb eb ea p n en ep =
    let h1 = inserted b e anchor h in
    (
      record {
        next = update (update h1.next b anchor) e 0;
        prev = update (update h1.prev anchor b) e 0;
      },
      pop_back-removed h1 anchor e b anchor (ground arith) (ground arith) (ground arith)
          (ground arith) (ground arith) (ground arith) (ground arith),
      λ c. (ground arith, ground arith),
    )

-- The last element of a ring, or its anchor, is not an element outside it.
last-apart : (anchor e : ℕ) (xs : List ℕ) → has e (anchor ∷ xs) ≡ false → e ≢ last_of anchor xs
last-apart anchor e xs out same =
    ground (arith, has-last_of anchor xs, out, ap (λ a. has a (anchor ∷ xs)) same)

-- `pop_back` gives back the element of a `push_back` and restores every link, if the element was on no
-- list before.
pub push_back-pop_back :
    (h : Links) (anchor e : ℕ) (xs : List ℕ)
    → IsRing h anchor xs
    → e ≢ 0
    → has e (anchor ∷ xs) ≡ false
    → (h.next e ≡ 0) × (h.prev e ≡ 0)
    → (h1 : Links) × (h2 : Links) × (push_back anchor e h ≡ some h1)
      × (pop_back anchor h1 ≡ some (e, h2))
      × SameLinks h h2
push_back-pop_back h anchor e xs is ne out (en, ep) =
    let b = last_of anchor xs in
    let (n, p) = Chain-last h anchor anchor xs is.chain in
    let nb = last_of-positive h anchor anchor xs is.positive is.chain in
    let (h2, e2, same) =
      pop_back-inserted h anchor e b is.positive ne nb (last-apart anchor e xs out) (ground arith) p
        n en ep in
    (inserted b e anchor h, h2, push_back-inserted h anchor e b is.positive ne nb p n, e2, same)
