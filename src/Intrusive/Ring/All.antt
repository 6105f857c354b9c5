-- ===== src/Intrusive/Ring/All.antt =====
-- `IntrusiveList`: what `removeAll` leaves, and all elements of one ring moved to another.
use u_threads.Base.{
  ℕ, ◌≡◌, ◌≢◌, refl, ◌∙◌, true, false, List, [], ◌∷◌, ◌++◌, some, ◌==◌, update, has, has-apart,
  Distinct, Distinct-append, Apart, arith,
}
use u_threads.Intrusive.{Links}
use u_threads.Intrusive.Seg.{last_of, has-last_of}
use u_threads.Intrusive.Ring.{ring_empty, insert_after}
use u_threads.Intrusive.Ring.Laws.{IsRing, Chain, Chain-last, last_of-positive}
use u_threads.Intrusive.Ring.Many.{remove_all, transfer_all_from, splice_back}

-- `removeAll` of a ring that is not empty returns the last element and takes the ring apart, but the
-- anchor still leads to the first element: the list does not read as empty afterwards.
pub remove_all-stale :
    (h : Links) (anchor x : ℕ) (xs : List ℕ)
    → IsRing h anchor (x ∷ xs)
    → (h' : Links) × (remove_all anchor h ≡ some (last_of x xs, h'))
      × (ring_empty anchor h' ≡ false)
      × (h'.next anchor ≡ x)
      × (h'.next (last_of x xs) ≡ 0)
unfolding remove_all ring_empty
remove_all-stale h anchor x xs is =
    let (first, back, nx, rest) = is.chain in
    let (n, p) = Chain-last h x anchor xs rest in
    let nb = last_of-positive h x anchor xs nx rest in
    let ta : (anchor == 0) ≡ false = ground (arith, is.positive) in
    let tx : (x == 0) ≡ false = ground arith in
    let tb : (last_of x xs == 0) ≡ false = ground arith in
    let apart : (anchor == last_of x xs) ≡ false =
      has-apart anchor (last_of x xs) (x ∷ xs) is.distinct.0 (has-last_of x xs) in
    (
      record { next = update h.next (last_of x xs) 0; prev = update h.prev x 0 },
      rw (ta, first, p, tx, tb) refl,
      rw (apart, first) (ground (arith, is.distinct.0)),
      rw (apart, first) refl,
      ground arith,
    )

-- The links from `p` over `xs`, without what follows.
Half : Links → ℕ → List ℕ → Type 0
Half f p [] = Unit {0}
Half f p (x ∷ xs) = (f.next p ≡ x) × (f.prev x ≡ p) × (x ≢ 0) × Half f x xs

Half-frame :
    (h f : Links) (p z : ℕ) (xs : List ℕ)
    → Chain h p xs z
    → Distinct (p ∷ xs)
    → ((c : ℕ) → has c (p ∷ xs) ≡ true → (c == last_of p xs) ≡ false → f.next c ≡ h.next c)
    → ((c : ℕ) → has c xs ≡ true → f.prev c ≡ h.prev c)
    → Half f p xs
unfolding Half
Half-frame h f p z [] s d same back = tt
Half-frame h f p z (x ∷ xs) (n, b, nx, s) d same back =
    let apart = has-apart p (last_of x xs) (x ∷ xs) d.0 (has-last_of x xs) in
    (
      same p (ground arith) apart ∙ n,
      back x (ground arith) ∙ b,
      nx,
      Half-frame h f x z xs s d.1 (λ c on ne. same c (ground (arith, on)) ne)
          (λ c on. back c (ground (arith, on))),
    )

Half-end :
    (f : Links) (p z : ℕ) (xs : List ℕ)
    → Half f p xs
    → f.next (last_of p xs) ≡ z
    → f.prev z ≡ last_of p xs
    → Chain f p xs z
unfolding Half
Half-end f p z [] s n b = (n, b)
Half-end f p z (x ∷ xs) (e, e', nx, s) n b = (e, e', nx, Half-end f x z xs s n b)

Half-append :
    (f : Links) (p y z : ℕ) (xs ys : List ℕ)
    → Half f p xs
    → f.next (last_of p xs) ≡ y
    → f.prev y ≡ last_of p xs
    → y ≢ 0
    → Chain f y ys z
    → Chain f p (xs ++ y ∷ ys) z
unfolding Half
Half-append f p y z [] ys s n b ny c = (n, b, ny, c)
Half-append f p y z (x ∷ xs) ys (e, e', nx, s) n b ny c =
    (e, e', nx, Half-append f x y z xs ys s n b ny c)

-- What `transferAllFrom` writes, with the last element `b` of one ring, and `y` to `l` of the other.
spliced : ℕ → ℕ → ℕ → ℕ → ℕ → Links → Links
spliced anchor el b y l h = record {
  next = update (update (update (update h.next l 0) el el) l anchor) b y;
  prev = update (update (update (update h.prev y 0) el el) anchor l) y b;
}

transfer_all_from-spliced :
    (h : Links) (anchor el b y l : ℕ)
    → (anchor == 0) ≡ false
    → (el == 0) ≡ false
    → (b == 0) ≡ false
    → (y == 0) ≡ false
    → (l == 0) ≡ false
    → h.next el ≡ y
    → h.prev el ≡ l
    → update (update h.prev y 0) el el anchor ≡ b
    → update (update h.next l 0) el el b ≡ anchor
    → transfer_all_from anchor el h ≡ some (spliced anchor el b y l h)
unfolding transfer_all_from splice_back insert_after spliced
transfer_all_from-spliced h anchor el b y l ta te tb ty tl n p back front =
    rw (te, n, p, ty, tl, ta, back, tb, front, ta) refl

-- The elements and the anchor of one ring are not those of the other.
abbrev pub Separate : ℕ → List ℕ → ℕ → List ℕ → Type 0
Separate anchor xs el ys = (c : ℕ) → has c (anchor ∷ xs) ≡ true → has c (el ∷ ys) ≡ false

Separate-apart :
    (anchor el c d : ℕ) (xs ys : List ℕ)
    → Separate anchor xs el ys
    → has c (anchor ∷ xs) ≡ true
    → has d (el ∷ ys) ≡ true
    → (c == d) ≡ false
Separate-apart anchor el c d xs ys sep on on' = has-apart c d (el ∷ ys) (sep c on) on'

spliced-Half_front :
    (h : Links) (anchor el y : ℕ) (xs ys : List ℕ)
    → IsRing h anchor xs
    → Separate anchor xs el (y ∷ ys)
    → Half (spliced anchor el (last_of anchor xs) y (last_of y ys) h) anchor xs
unfolding spliced
spliced-Half_front h anchor el y xs ys is sep =
    let l = last_of y ys in
    let on_l : has l (el ∷ y ∷ ys) ≡ true = ground (arith, has-last_of y ys) in
    Half-frame h _ anchor anchor xs is.chain is.distinct
      (λ c on ne.
        let cl : (c == l) ≡ false = Separate-apart anchor el c l xs (y ∷ ys) sep on on_l in
        let out = sep c on in ground (arith, ne, cl, out))
      (λ c on.
        let out = sep c (ground (arith, on)) in
        let ca : (anchor == c) ≡ false = has-apart anchor c xs is.distinct.0 on in
        ground (arith, out, ca))

spliced-Half_back :
    (h : Links) (anchor el y : ℕ) (xs ys : List ℕ)
    → IsRing h anchor xs
    → IsRing h el (y ∷ ys)
    → Separate anchor xs el (y ∷ ys)
    → Half (spliced anchor el (last_of anchor xs) y (last_of y ys) h) y ys
unfolding spliced
spliced-Half_back h anchor el y xs ys is ise sep =
    let b = last_of anchor xs in
    let on_b = has-last_of anchor xs in
    let on_a : has anchor (anchor ∷ xs) ≡ true = ground arith in
    Half-frame h _ y el ys ise.chain.3 ise.distinct.1
      (λ c on ne.
        let bc : (b == c) ≡ false =
          Separate-apart anchor el b c xs (y ∷ ys) sep on_b (ground (arith, on)) in
        let ec : (el == c) ≡ false = has-apart el c (y ∷ ys) ise.distinct.0 on in
        ground (arith, bc, ec, ne))
      (λ c on.
        let yc : (y == c) ≡ false = has-apart y c ys ise.distinct.1.0 on in
        let ac : (anchor == c) ≡ false =
          Separate-apart anchor el anchor c xs (y ∷ ys) sep on_a (ground (arith, on)) in
        let ec : (el == c) ≡ false = has-apart el c (y ∷ ys) ise.distinct.0 (ground (arith, on)) in
        ground (arith, yc, ac, ec))

Separate-Apart : (xs ys : List ℕ) → ((c : ℕ) → has c xs ≡ true → has c ys ≡ false) → Apart xs ys
Separate-Apart [] ys sep = tt
Separate-Apart (x ∷ xs) ys sep =
    (sep x (ground arith), Separate-Apart xs ys (λ c on. sep c (ground (arith, on))))

-- `transferAllFrom` puts all elements of a ring that is not empty at the end of another one, in their
-- order, and leaves the first ring empty.
pub transfer_all_from-both :
    (h : Links) (anchor el y : ℕ) (xs ys : List ℕ)
    → IsRing h anchor xs
    → IsRing h el (y ∷ ys)
    → Separate anchor xs el (y ∷ ys)
    → (h' : Links) × (transfer_all_from anchor el h ≡ some h')
      × IsRing h' anchor (xs ++ y ∷ ys)
      × IsRing h' el []
unfolding spliced
transfer_all_from-both h anchor el y xs ys is ise sep =
    let b = last_of anchor xs in
    let l = last_of y ys in
    let (ey, pe, ny, rest) = ise.chain in
    let (nb, pa) = Chain-last h anchor anchor xs is.chain in
    let (nl, pl) = Chain-last h y el ys rest in
    let b_ne = last_of-positive h anchor anchor xs is.positive is.chain in
    let l_ne = last_of-positive h y el ys ny rest in
    let on_b = has-last_of anchor xs in
    let on_l : has l (el ∷ y ∷ ys) ≡ true = ground (arith, has-last_of y ys) in
    let out_a = sep anchor (ground arith) in
    let out_b = sep b on_b in
    let bl : (b == l) ≡ false = Separate-apart anchor el b l xs (y ∷ ys) sep on_b on_l in
    let al : (anchor == l) ≡ false =
      Separate-apart anchor el anchor l xs (y ∷ ys) sep (ground arith) on_l in
    let elb : (el == l) ≡ false = has-apart el l (y ∷ ys) ise.distinct.0 (has-last_of y ys) in
    (
      spliced anchor el b y l h,
      transfer_all_from-spliced h anchor el b y l (ground (arith, is.positive))
          (ground (arith, ise.positive)) (ground (arith, b_ne)) (ground (arith, ny))
          (ground (arith, l_ne)) ey pl (ground (arith, out_a, pa)) (ground (arith, out_b, bl, nb)),
      record {
        chain =
            Half-append (spliced anchor el b y l h) anchor y anchor xs ys
              (spliced-Half_front h anchor el y xs ys is sep) (ground arith) (ground arith) ny
              (Half-end (spliced anchor el b y l h) y anchor ys
                (spliced-Half_back h anchor el y xs ys is ise sep) (ground (arith, bl))
                (ground (arith, out_a)));
        distinct = Distinct-append (anchor ∷ xs) (y ∷ ys) is.distinct ise.distinct.1 (
            Separate-Apart (anchor ∷ xs) (y ∷ ys)
              (λ c on. let out = sep c on in ground (arith, out)));
        positive = is.positive;
      },
      record {
        chain = (ground (arith, out_b, elb), ground (arith, out_a, ise.distinct.0));
        distinct = (refl, tt);
        positive = ise.positive;
      },
    )
