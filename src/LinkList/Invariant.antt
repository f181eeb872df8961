-- ===== src/LinkList/Invariant.antt =====
-- What a LIST stands for: the addresses that its links lead through, from `pvHeader` to `pvTail`.
-- The invariant says nothing of the link behind the tail; a chain that ends in NULL is `Ends`.
use mintos.Base.{
  ℕ, ◌^◌, ◌<◌, ◌≡◌, ◌≢◌, false, List, [], ◌∷◌, ◌++◌, arith, length, has, Distinct, has-append,
  Bool-cases, ◌==◌, inl, inr, true,
}
use mintos.LinkList.{LinkList, Memory, null, write_next}

abbrev pub head_or_null : List ℕ → ℕ
head_or_null [] = null
head_or_null (x ∷ xs) = x

abbrev pub last_from : ℕ → List ℕ → ℕ
last_from x [] = x
last_from x (y ∷ ys) = last_from y ys

abbrev pub last_or_null : List ℕ → ℕ
last_or_null [] = null
last_or_null (x ∷ xs) = last_from x xs

-- From `p` the `pvNext` links lead through `xs`.
abbrev pub Links : Memory → ℕ → List ℕ → Type 0
Links m p [] = Unit
Links m p (x ∷ xs) = (x ≢ null) × ((m p).next ≡ x) × Links m x xs

abbrev pub Linked : Memory → List ℕ → Type 0
Linked m [] = Unit
Linked m (x ∷ xs) = (x ≢ null) × Links m x xs

pub record IsList (m : Memory) (l : LinkList) (xs : List ℕ) : Type 0 where
  pub header : l.header ≡ head_or_null xs
  pub tail : l.tail ≡ last_or_null xs
  pub linked : Linked m xs
  pub count : l.count ≡ length xs
  pub fits : length xs < 2 ^ 31
  pub distinct : Distinct xs

-- The link behind the tail is NULL.
abbrev pub Ends : Memory → List ℕ → Type 0
Ends m [] = Unit
Ends m (x ∷ xs) = (m (last_from x xs)).next ≡ null

-- No item of the list has the identifier.
abbrev pub NoId : Memory → ℕ → List ℕ → Type 0
NoId m id [] = Unit
NoId m id (x ∷ xs) = ((m x).id ≢ id) × NoId m id xs

pub last_from-ne : (a x : ℕ) (xs : List ℕ) → has a (x ∷ xs) ≡ false → a ≢ last_from x xs
last_from-ne a x [] h = ground arith
last_from-ne a x (y ∷ ys) h = last_from-ne a y ys (ground arith)

pub last_from-append : (x y : ℕ) (xs ys : List ℕ) → last_from x (xs ++ y ∷ ys) ≡ last_from y ys
last_from-append x y [] ys = ground arith
last_from-append x y (z ∷ xs) ys = last_from-append z y xs ys

-- Writing the link of an address that is not on the way changes nothing.
pub Links-write_off :
    (m : Memory) (a q p : ℕ) (xs : List ℕ)
    → has a (p ∷ xs) ≡ false
    → Links m p xs
    → Links (write_next m a q) p xs
unfolding write_next
Links-write_off m a q p [] h w = tt
Links-write_off m a q p (x ∷ xs) h w =
    (w.0, ground arith, Links-write_off m a q x xs (ground arith) w.2)

-- Nor does writing the link of the last.
pub Links-write_last :
    (m : Memory) (q p : ℕ) (xs : List ℕ)
    → Distinct (p ∷ xs)
    → Links m p xs
    → Links (write_next m (last_from p xs) q) p xs
unfolding write_next
Links-write_last m q p [] d w = tt
Links-write_last m q p (x ∷ xs) d w =
    (w.0, ground (arith, last_from-ne p x xs), Links-write_last m q x xs d.1 w.2)

-- A chain goes on behind its last item.
pub Links-append :
    (m : Memory) (p y : ℕ) (xs ys : List ℕ)
    → Links m p xs
    → y ≢ null
    → (m (last_from p xs)).next ≡ y
    → Links m y ys
    → Links m p (xs ++ y ∷ ys)
Links-append m p y [] ys w n e v = (n, e, v)
Links-append m p y (x ∷ xs) ys w n e v = (w.0, w.1, Links-append m x y xs ys w.2 n e v)

-- The parts of a chain that is split at `y`.
pub Links-prefix :
    (m : Memory) (p y : ℕ) (xs ys : List ℕ)
    → Links m p (xs ++ y ∷ ys)
    → Links m p xs × (y ≢ null) × ((m (last_from p xs)).next ≡ y) × Links m y ys
Links-prefix m p y [] ys w = (tt, w.0, w.1, w.2)
Links-prefix m p y (x ∷ xs) ys w =
    let r = Links-prefix m x y xs ys w.2 in ((w.0, w.1, r.0), r.1, r.2, r.3)

pub has-false-append :
    (a : ℕ) (xs ys : List ℕ) → has a (xs ++ ys) ≡ false → (has a xs ≡ false) × (has a ys ≡ false)
has-false-append a xs ys h = ground (arith, has-append a xs ys)

-- Distinctness of a list that is split at `y`: `y` is not in the rest, and the rest is distinct.
pub Distinct-split :
    (y : ℕ) (xs ys : List ℕ)
    → Distinct (xs ++ y ∷ ys)
    → Distinct (xs ++ ys) × (has y xs ≡ false) × (has y ys ≡ false)
Distinct-split y [] ys d = (d.1, ground arith, d.0)
Distinct-split y (x ∷ xs) ys d =
    let r = Distinct-split y xs ys d.1 in
    (
      (ground (arith, has-append x xs (y ∷ ys), has-append x xs ys), r.0),
      ground (arith, has-append x xs (y ∷ ys), r.1),
      r.2,
    )

pub Distinct-prefix : (xs ys : List ℕ) → Distinct (xs ++ ys) → Distinct xs
Distinct-prefix [] ys d = tt
Distinct-prefix (x ∷ xs) ys d = (ground (arith, has-append x xs ys), Distinct-prefix xs ys d.1)

pub Distinct-snoc : (y : ℕ) (xs : List ℕ) → Distinct xs → has y xs ≡ false → Distinct (xs ++ y ∷ [])
Distinct-snoc y [] d h = (ground arith, tt)
Distinct-snoc y (x ∷ xs) d h =
    (ground (arith, has-append x xs (y ∷ [])), Distinct-snoc y xs d.1 (ground arith))

-- The invariant rests on the links of the items alone.
pub Links-frame :
    (m m' : Memory) (p : ℕ) (xs : List ℕ)
    → ((a : ℕ) → has a (p ∷ xs) ≡ true → m' a ≡ m a)
    → Links m p xs
    → Links m' p xs
Links-frame m m' p [] same w = tt
Links-frame m m' p (x ∷ xs) same w =
    (w.0, ground (arith, same p), Links-frame m m' x xs (λ a h. same a (ground arith)) w.2)

pub Linked-frame :
    (m m' : Memory) (xs : List ℕ)
    → ((a : ℕ) → has a xs ≡ true → m' a ≡ m a)
    → Linked m xs
    → Linked m' xs
Linked-frame m m' [] same w = tt
Linked-frame m m' (x ∷ xs) same w = (w.0, Links-frame m m' x xs same w.1)

pub IsList-frame :
    (m m' : Memory) (l : LinkList) (xs : List ℕ)
    → ((a : ℕ) → has a xs ≡ true → m' a ≡ m a)
    → IsList m l xs
    → IsList m' l xs
IsList-frame m m' l xs same v = record {
  header = v.header;
  tail = v.tail;
  linked = Linked-frame m m' xs same v.linked;
  count = v.count;
  fits = v.fits;
  distinct = v.distinct;
}

pub Links-ne_null : (m : Memory) (p a : ℕ) (xs : List ℕ) → Links m p xs → has a xs ≡ true → a ≢ null
Links-ne_null m p a [] w h = cc
Links-ne_null m p a (x ∷ xs) w h = elim (Bool-cases (a == x)) [
  | inl e ↦ ground arith
  | inr ne ↦ Links-ne_null m x a xs w.2 (ground arith)
]

-- No item of a list is NULL.
pub Linked-ne_null : (m : Memory) (a : ℕ) (xs : List ℕ) → Linked m xs → has a xs ≡ true → a ≢ null
Linked-ne_null m a [] w h = cc
Linked-ne_null m a (x ∷ xs) w h = elim (Bool-cases (a == x)) [
  | inl e ↦ ground arith
  | inr ne ↦ Links-ne_null m x a xs w.1 (ground arith)
]

pub last_or_null-mem : (x : ℕ) (xs : List ℕ) → has (last_from x xs) (x ∷ xs) ≡ true
last_or_null-mem x [] = ground arith
last_or_null-mem x (y ∷ ys) = ground (arith, last_or_null-mem y ys)
