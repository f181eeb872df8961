-- ===== src/LinkList/Add.antt =====
-- kAddListToTail and kAddListToHeader against the list of addresses.
use mintos.Base.{
  lengths, ℕ, ◌+◌, ◌^◌, ◌<◌, ◌≡◌, ◌≢◌, false, List, [], ◌∷◌, ◌++◌, arith, length, has, Distinct,
  refl,
}
use mintos.LinkList.{LinkList, Memory, null, write_next, add_list_to_tail, add_list_to_header}
use mintos.LinkList.Invariant.{
  last_or_null, last_from, Links, IsList, Ends, last_from-ne, last_from-append, Links-write_off,
  Links-write_last, Links-append, Distinct-snoc,
}

Links-add :
    (m : Memory) (x item : ℕ) (xs : List ℕ)
    → Links m x xs
    → Distinct (x ∷ xs)
    → has item (x ∷ xs) ≡ false
    → item ≢ null
    → Links (write_next (write_next m item null) (last_from x xs) item) x (xs ++ item ∷ [])
unfolding write_next
Links-add m x item xs w d out n =
    let m' = write_next m item null in
    Links-append (write_next m' (last_from x xs) item) x item xs []
      (Links-write_last m' item x xs d (Links-write_off m item null x xs out w)) n (ground arith) tt

-- Adding at the tail an item that is not NULL and not in the list, which has room for one more,
-- appends the item to the list, and the new last link is NULL. It changes no identifier, and no link
-- but those of the old tail and of the item.
pub add_list_to_tail-IsList :
    (m : Memory) (l : LinkList) (xs : List ℕ) (item : ℕ)
    → IsList m l xs
    → item ≢ null
    → has item xs ≡ false
    → length xs + 1 < 2 ^ 31
    → let (m', l') = add_list_to_tail m l item in
      IsList m' l' (xs ++ item ∷ [])
      × Ends m' (xs ++ item ∷ [])
      × ((a : ℕ) → (m' a).id ≡ (m a).id)
      × ((a : ℕ) → a ≢ item → a ≢ last_or_null xs → m' a ≡ m a)
unfolding add_list_to_tail
add_list_to_tail-IsList m l [] item v n out b = (
  record {
    header = ground arith;
    tail = ground arith;
    linked = (n, tt);
    count = ground arith;
    fits = omega arith;
    distinct = (refl, tt);
  },
  ground arith,
  ground arith,
  ground arith,
)
add_list_to_tail-IsList m l (x ∷ xs) item v n out b = (
  record {
    header = ground arith;
    tail = ground (arith, last_from-append x item xs []);
    linked = (v.linked.0, ground (arith, Links-add m x item xs v.linked.1 v.distinct out n));
    count = grind lengths;
    fits = grind lengths;
    distinct = Distinct-snoc item (x ∷ xs) v.distinct out;
  },
  ground (arith, last_from-append x item xs [], last_from-ne item x xs out),
  ground arith,
  ground arith,
)

-- Adding at the header an item that is not NULL and not in the list, which has room for one more,
-- puts the item in front of the list. It changes no identifier and no link but the item's.
pub add_list_to_header-IsList :
    (m : Memory) (l : LinkList) (xs : List ℕ) (item : ℕ)
    → IsList m l xs
    → item ≢ null
    → has item xs ≡ false
    → length xs + 1 < 2 ^ 31
    → let (m', l') = add_list_to_header m l item in
      IsList m' l' (item ∷ xs)
      × ((a : ℕ) → (m' a).id ≡ (m a).id)
      × ((a : ℕ) → a ≢ item → m' a ≡ m a)
unfolding add_list_to_header
add_list_to_header-IsList m l [] item v n out b = (
  record {
    header = ground arith;
    tail = ground arith;
    linked = (n, tt);
    count = ground arith;
    fits = omega arith;
    distinct = (refl, tt);
  },
  ground arith,
  ground arith,
)
add_list_to_header-IsList m l (x ∷ xs) item v n out b = (
  record {
    header = ground arith;
    tail = ground arith;
    linked = ground (arith, Links-write_off m item x x xs out v.linked.1);
    count = ground arith;
    fits = omega arith;
    distinct = (out, v.distinct);
  },
  ground arith,
  ground arith,
)
