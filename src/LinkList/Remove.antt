-- ===== src/LinkList/Remove.antt =====
-- kRemoveList and its two callers against the list of addresses.
use mintos.Base.{
  lengths, ℕ, suc, ◌+◌, ◌<◌, ◌≡◌, false, List, [], ◌∷◌, ◌++◌, arith, length, length-append, dec32,
  append-nil, refl, zero, some, ◌==◌, ==_iff, ap, ◌∙◌,
}
use mintos.LinkList.{
  LinkList, Memory, null, write_next, unlink, remove_loop, remove_list, remove_list_from_header,
  remove_list_from_tail,
}
use mintos.LinkList.Unlink.{Removed, unlink-Removed}
use mintos.LinkList.Invariant.{
  head_or_null, last_from, Linked, IsList, Ends, NoId, last_from-ne, last_from-append,
  Distinct-split,
}

-- The walk passes the items with other identifiers and stops at `y`; `link` heads what is left.
remove_loop-finds :
    (fuel : ℕ) (m : Memory) (l : LinkList) (id prev y : ℕ) (xs ys : List ℕ)
    → Linked m (xs ++ y ∷ ys)
    → NoId m id xs
    → (m y).id ≡ id
    → length xs < fuel
    → remove_loop fuel m l id prev (head_or_null (xs ++ y ∷ ys))
      ≡ (let (m', l') = unlink m l (last_from prev xs) y in some (m', l', y))
unfolding remove_loop
remove_loop-finds zero m l id prev y xs ys w other e f = absurd (omega arith)
remove_loop-finds (suc fuel) m l id prev y [] ys w other e f = ground arith
remove_loop-finds (suc fuel) m l id prev y (x ∷ []) ys w other e f =
    ground (arith, remove_loop-finds fuel m l id x y [] ys (w.1.0, w.1.2))
remove_loop-finds (suc fuel) m l id prev y (x ∷ z ∷ xs) ys w other e f =
    ground (arith, remove_loop-finds fuel m l id x y (z ∷ xs) ys (w.1.0, w.1.2))

-- The walk from `x` to NULL.
remove_loop-absent :
    (fuel : ℕ) (m : Memory) (l : LinkList) (id prev x : ℕ) (xs : List ℕ)
    → Linked m (x ∷ xs)
    → Ends m (x ∷ xs)
    → NoId m id (x ∷ xs)
    → length xs + 1 < fuel
    → remove_loop fuel m l id prev x ≡ some (m, l, null)
unfolding remove_loop
remove_loop-absent zero m l id prev x xs w e other f = absurd (omega arith)
remove_loop-absent (suc zero) m l id prev x xs w e other f = absurd (omega arith)
remove_loop-absent (suc (suc fuel)) m l id prev x [] w e other f = ground arith
remove_loop-absent (suc (suc fuel)) m l id prev x (y ∷ ys) w e other f =
    ground (arith, remove_loop-absent (suc fuel) m l id x y ys (w.1.0, w.1.2))

tail_eq : {m : Memory} {l : LinkList} (xs : List ℕ) (y : ℕ) → IsList m l (xs ++ y ∷ []) → l.tail ≡ y
tail_eq [] y v = v.tail
tail_eq (x ∷ xs) y v = v.tail ∙ last_from-append x y xs []

-- With fuel for the walk, kRemoveList takes out the first item with the identifier: it returns that
-- item and leaves the list without it, in the same order. It changes no identifier, and no link but
-- that of the item in front; the chain still ends in NULL if it did and the item was not the tail.
pub remove_list-Removed :
    (fuel : ℕ) (m : Memory) (l : LinkList) (xs ys : List ℕ) (y : ℕ)
    → IsList m l (xs ++ y ∷ ys)
    → NoId m (m y).id xs
    → length xs < fuel
    → (m' : Memory) × (l' : LinkList) × (remove_list fuel m l (m y).id ≡ some (m', l', y))
      × Removed m xs ys m' l'
unfolding remove_list
remove_list-Removed fuel m l xs ys y v other f = (
  (unlink m l (last_from l.header xs) y).0,
  (unlink m l (last_from l.header xs) y).1,
  ap (remove_loop fuel m l (m y).id l.header) v.header
      ∙ remove_loop-finds fuel m l (m y).id l.header y xs ys v.linked other refl f,
  unlink-Removed m l y xs ys v,
)

-- With an identifier that no item has, in a chain that ends in NULL, kRemoveList returns NULL and
-- changes nothing.
pub remove_list-absent :
    (fuel : ℕ) (m : Memory) (l : LinkList) (xs : List ℕ) (id : ℕ)
    → IsList m l xs
    → Ends m xs
    → NoId m id xs
    → length xs < fuel
    → remove_list fuel m l id ≡ some (m, l, null)
unfolding remove_list
remove_list-absent zero m l xs id v e other f = absurd (omega arith)
remove_list-absent (suc fuel) m l [] id v e other f = unfold remove_loop in ground arith
remove_list-absent (suc fuel) m l (x ∷ xs) id v e other f =
    ap (remove_loop (suc fuel) m l id l.header) v.header
    ∙ remove_loop-absent (suc fuel) m l id l.header x xs v.linked e other (omega arith)

-- kRemoveListFromHeader takes out the first item, with fuel for one step.
pub remove_list_from_header-Removed :
    (fuel : ℕ) (m : Memory) (l : LinkList) (x : ℕ) (xs : List ℕ)
    → IsList m l (x ∷ xs)
    → (m' : Memory) × (l' : LinkList) × (remove_list_from_header (suc fuel) m l ≡ some (m', l', x))
      × Removed m [] xs m' l'
unfolding remove_list_from_header
remove_list_from_header-Removed fuel m l x xs v =
    let r = remove_list-Removed (suc fuel) m l [] xs x v tt (omega arith) in
    let nonempty : (l.count == 0) ≡ false = ground arith in
    (r.0, r.1, rw nonempty (ap (λ h. remove_list (suc fuel) m l (m h).id) v.header ∙ r.2), r.3)

-- kRemoveListFromTail takes out the last item, if no item before it has its identifier.
pub remove_list_from_tail-Removed :
    (fuel : ℕ) (m : Memory) (l : LinkList) (xs : List ℕ) (y : ℕ)
    → IsList m l (xs ++ y ∷ [])
    → NoId m (m y).id xs
    → length xs < fuel
    → (m' : Memory) × (l' : LinkList) × (remove_list_from_tail fuel m l ≡ some (m', l', y))
      × Removed m xs [] m' l'
unfolding remove_list_from_tail
remove_list_from_tail-Removed fuel m l xs y v other f =
    let r = remove_list-Removed fuel m l xs [] y v other f in
    let nonempty : (l.count == 0) ≡ false = grind lengths in
    (r.0, r.1, rw nonempty (ap (λ t. remove_list fuel m l (m t).id) (tail_eq xs y v) ∙ r.2), r.3)

-- kRemoveList does not clear the link that leads to a removed tail. So a second call with the
-- identifier of the tail that was just taken out, from a list of two or more items, finds the tail
-- again: it returns it once more, and `iItemCount` falls below the number of items left.
pub remove_list-twice :
    (fuel : ℕ) (m : Memory) (l : LinkList) (a : ℕ) (xs : List ℕ) (y : ℕ)
    → IsList m l (a ∷ xs ++ y ∷ [])
    → NoId m (m y).id (a ∷ xs)
    → length xs + 1 < fuel
    → (l' : LinkList) × (m'' : Memory) × (l'' : LinkList) × (remove_list fuel m l (m y).id
        ≡ some (m, l', y))
      × IsList m l' (a ∷ xs)
      × (remove_list fuel m l' (m y).id ≡ some (m'', l'', y))
      × (l''.count + 1 ≡ length (a ∷ xs))
unfolding remove_list unlink
remove_list-twice fuel m l a xs y v other f =
    let l' : LinkList = record l { count = dec32 l.count; tail = last_from a xs } in
    let split = Distinct-split y (a ∷ xs) [] v.distinct in
    let r = unlink-Removed m l y (a ∷ xs) [] v in
    let walk = λ (k : LinkList) (h : k.header ≡ a).
      ap (remove_loop fuel m k (m y).id k.header) h
      ∙ remove_loop-finds fuel m k (m y).id k.header y (a ∷ xs) [] v.linked other refl
          (omega arith) in
    let at_tail : y ≡ l.tail = ground (arith, last_from-append a y xs []) in
    let not_header : (y == l.header) ≡ false = ground (arith, split.1) in
    let not_tail : (y == last_from a xs) ≡ false = ground (arith, last_from-ne y a xs split.1) in
    let first : unlink m l (last_from a xs) y ≡ (m, l') =
      rw (not_header, (==_iff y l.tail).1 at_tail) in
    let second : unlink m l' (last_from a xs) y
        ≡ (write_next m (last_from a xs) (m y).next, record l' { count = dec32 l'.count }) =
      rw (not_header, not_tail) in
    (
      l',
      write_next m (last_from a xs) (m y).next,
      record l' { count = dec32 l'.count },
      walk l v.header ∙ ap (λ u. some (u.0, u.1, y)) first,
      rw (first, append-nil xs) at r.list,
      walk l' v.header ∙ ap (λ u. some (u.0, u.1, y)) second,
      omega (arith, length-append xs (y ∷ []), v.count, v.fits),
    )
