-- ===== src/Intrusive/Ring/Laws.antt =====
-- The operations of `IntrusiveList` on the list that its ring stands for.
use u_threads.Base.{
  ℕ, ◌≡◌, ◌≢◌, refl, false, List, [], ◌∷◌, ◌++◌, some, ◌==◌, update, has, Distinct, Distinct-snoc,
  has-append, arith,
}
use u_threads.Intrusive.{Links}
use u_threads.Intrusive.Seg.{last_of, has-last_of}
use u_threads.Intrusive.Ring.{remove, insert_after, push_back, pop_front}

-- From `p` over `xs` to `z`, in both directions.
abbrev pub Chain : Links → ℕ → List ℕ → ℕ → Type 0
Chain h p [] z = (h.next p ≡ z) × (h.prev z ≡ p)
Chain h p (x ∷ xs) z = (h.next p ≡ x) × (h.prev x ≡ p) × (x ≢ 0) × Chain h x xs z

-- The ring through `anchor` stands for `xs`.
pub record IsRing (h : Links) (anchor : ℕ) (xs : List ℕ) : Type 0 where
  pub chain : Chain h anchor xs anchor
  pub distinct : Distinct (anchor ∷ xs)
  pub positive : anchor ≢ 0

-- Writes to the `next` of `a` and of `b` and to the `prev` of `c` and of `d` outside a chain.
pub Chain-frame :
    (h : Links) (a u b v c w d y p z : ℕ) (xs : List ℕ)
    → has a (p ∷ xs) ≡ false
    → has b (p ∷ xs) ≡ false
    → has c xs ≡ false
    → has d xs ≡ false
    → c ≢ z
    → d ≢ z
    → Chain h p xs z
    → Chain
        (record { next = update (update h.next a u) b v; prev = update (update h.prev c w) d y })
        p
        xs
        z
Chain-frame h a u b v c w d y p z [] na nb nc nd cz dz s = ground arith
Chain-frame h a u b v c w d y p z (x ∷ xs) na nb nc nd cz dz s = (
  ground arith,
  ground arith,
  s.2,
  Chain-frame h a u b v c w d y x z xs (ground arith) (ground arith) (ground arith) (ground arith)
      cz dz s.3,
)

-- What `remove` does to the first element.
removed : ℕ → ℕ → ℕ → Links → Links
removed anchor x n h = record {
  next = update (update h.next anchor n) x 0;
  prev = update (update h.prev n anchor) x 0;
}

pop_front-removed :
    (h : Links) (anchor x n : ℕ)
    → anchor ≢ 0
    → x ≢ 0
    → n ≢ 0
    → h.next anchor ≡ x
    → h.prev x ≡ anchor
    → h.next x ≡ n
    → pop_front anchor h ≡ some (x, removed anchor x n h)
unfolding pop_front remove removed
pop_front-removed h anchor x n a b c e f g =
    let ta : (anchor == 0) ≡ false = ground arith in
    let tx : (x == 0) ≡ false = ground arith in
    let tn : (n == 0) ≡ false = ground arith in rw (ta, e, tx, f, g, ta, tn) refl

-- `pop_front()` takes the first element and leaves it on no list.
pub pop_front-cons :
    (h : Links) (anchor x : ℕ) (xs : List ℕ)
    → IsRing h anchor (x ∷ xs)
    → (h' : Links) × (pop_front anchor h ≡ some (x, h'))
      × IsRing h' anchor xs
      × (h'.next x ≡ 0)
      × (h'.prev x ≡ 0)
unfolding removed
pop_front-cons h anchor x [] is =
    let (e, f, nx, g) = is.chain in
    (
      removed anchor x anchor h,
      pop_front-removed h anchor x anchor is.positive nx is.positive e f g.0,
      record {
        chain = ground (arith, is.distinct.0);
        distinct = (refl, tt);
        positive = is.positive;
      },
      ground arith,
      ground arith,
    )
pop_front-cons h anchor x (y ∷ ys) is =
    let (e, f, nx, (g, k, ny, rest)) = is.chain in
    let (oa, (ox, (oy, d))) = is.distinct in
    let apart : y ≢ anchor = ground arith in
    (
      removed anchor x y h,
      pop_front-removed h anchor x y is.positive nx ny e f g,
      record {
        chain = (
          ground arith,
          ground arith,
          ny,
          Chain-frame h anchor y x 0 y anchor x 0 y anchor ys (ground arith) (ground arith)
              (ground arith) (ground arith) (ground arith) (ground arith) rest,
        );
        distinct = (ground arith, (oy, d));
        positive = is.positive;
      },
      ground arith,
      ground arith,
    )

-- What `insert_after` writes for one element between `b` and `z`.
unfoldable pub inserted : ℕ → ℕ → ℕ → Links → Links
inserted b e z h = record {
  next = update (update h.next e z) b e;
  prev = update (update h.prev z e) e b;
}

pub Chain-last :
    (h : Links) (p z : ℕ) (xs : List ℕ)
    → Chain h p xs z
    → (h.next (last_of p xs) ≡ z) × (h.prev z ≡ last_of p xs)
Chain-last h p z [] s = s
Chain-last h p z (x ∷ xs) s = Chain-last h x z xs s.3

pub last_of-positive :
    (h : Links) (p z : ℕ) (xs : List ℕ) → p ≢ 0 → Chain h p xs z → last_of p xs ≢ 0
last_of-positive h p z [] ne s = ne
last_of-positive h p z (x ∷ xs) ne s = last_of-positive h x z xs s.2 s.3

Chain-snoc :
    (h : Links) (p e z : ℕ) (xs : List ℕ)
    → e ≢ 0
    → e ≢ z
    → has e (p ∷ xs) ≡ false
    → has z xs ≡ false
    → Distinct (p ∷ xs)
    → Chain h p xs z
    → Chain (inserted (last_of p xs) e z h) p (xs ++ e ∷ []) z
unfolding inserted
Chain-snoc h p e z [] ne nz out oz d s =
    (ground arith, ground arith, ne, (ground arith, ground arith))
Chain-snoc h p e z (x ∷ xs) ne nz out oz d s =
    let at = has-last_of x xs in
    (
      ground arith,
      ground arith,
      s.2,
      Chain-snoc h x e z xs ne nz (ground arith) (ground arith) d.1 s.3,
    )

pub push_back-inserted :
    (h : Links) (anchor e b : ℕ)
    → anchor ≢ 0
    → e ≢ 0
    → b ≢ 0
    → h.prev anchor ≡ b
    → h.next b ≡ anchor
    → push_back anchor e h ≡ some (inserted b e anchor h)
unfolding push_back insert_after inserted
push_back-inserted h anchor e b a ne nb p n =
    let ta : (anchor == 0) ≡ false = ground arith in
    let te : (e == 0) ≡ false = ground arith in
    let tb : (b == 0) ≡ false = ground arith in rw (ta, p, tb, n, ta, te) refl

-- `push_back(elem)` of an element that is on no list puts it at the end.
pub push_back-snoc :
    (h : Links) (anchor e : ℕ) (xs : List ℕ)
    → IsRing h anchor xs
    → e ≢ 0
    → has e (anchor ∷ xs) ≡ false
    → (h' : Links) × (push_back anchor e h ≡ some h') × IsRing h' anchor (xs ++ e ∷ [])
push_back-snoc h anchor e xs is ne out =
    let b = last_of anchor xs in
    let (n, p) = Chain-last h anchor anchor xs is.chain in
    let nb = last_of-positive h anchor anchor xs is.positive is.chain in
    (
      inserted b e anchor h,
      push_back-inserted h anchor e b is.positive ne nb p n,
      record {
        chain =
            Chain-snoc h anchor e anchor xs ne (ground arith) out is.distinct.0 is.distinct
              is.chain;
        distinct = (
          ground (arith, has-append anchor xs (e ∷ [])),
          Distinct-snoc e xs (ground arith) is.distinct.1,
        );
        positive = is.positive;
      },
    )
