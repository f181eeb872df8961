-- ===== src/LinkList/Unlink.antt =====
-- The four cases of kRemoveList at the link that it has found, against the list of addresses.
use mintos.Base.{
  ℕ, ◌≡◌, ◌≢◌, false, List, [], ◌∷◌, ◌++◌, arith, has, Distinct, length-append, append-nil, refl,
  ◌==◌, ==_iff, sym, ◌∙◌,
}
use mintos.LinkList.{LinkList, Memory, write_next, unlink}
use mintos.LinkList.Invariant.{
  last_or_null, last_from, IsList, Ends, last_from-ne, last_from-append, Links-write_off,
  Links-write_last, Links-append, Links-prefix, Distinct-split, Distinct-prefix,
}

last_from-not_mem :
    (a : ℕ) (xs ys : List ℕ) → Distinct (a ∷ xs ++ ys) → has (last_from a xs) ys ≡ false
last_from-not_mem a [] ys d = d.0
last_from-not_mem a (x ∷ xs) ys d = last_from-not_mem x xs ys d.1

-- What taking `y` out from between `xs` and `ys` leaves.
pub record Removed (m : Memory) (xs ys : List ℕ) (m' : Memory) (l' : LinkList) : Type 0 where
  pub list : IsList m' l' (xs ++ ys)
  pub same_id : (a : ℕ) → (m' a).id ≡ (m a).id
  pub same_link : (a : ℕ) → a ≢ last_or_null xs → m' a ≡ m a
  pub ends : ys ≢ [] → Ends m ys → Ends m' (xs ++ ys)

module _ (m : Memory) (l : LinkList) (y : ℕ) where
  unlink-only :
      IsList m l (y ∷ []) → Removed m [] [] (unlink m l l.header y).0 (unlink m l l.header y).1
  unfolding unlink
  unlink-only v = record {
    list = record {
      header = ground arith;
      tail = ground arith;
      linked = tt;
      count = ground arith;
      fits = omega arith;
      distinct = tt;
    };
    same_id = ground arith;
    same_link = ground arith;
    ends = λ n. absurd (n refl);
  }

  unlink-first :
      (b : ℕ) (bs : List ℕ)
      → IsList m l (y ∷ b ∷ bs)
      → Removed m [] (b ∷ bs) (unlink m l l.header y).0 (unlink m l l.header y).1
  unfolding unlink
  unlink-first b bs v =
      let apart = last_from-ne y b bs v.distinct.0 in
      record {
        list = record {
          header = ground arith;
          tail = ground arith;
          linked = ground arith;
          count = ground arith;
          fits = omega arith;
          distinct = v.distinct.1;
        };
        same_id = ground arith;
        same_link = ground arith;
        ends = ground arith;
      }

  unlink-last :
      (a : ℕ) (xs : List ℕ)
      → IsList m l (a ∷ xs ++ y ∷ [])
      → Removed m (a ∷ xs) [] (unlink m l (last_from a xs) y).0 (unlink m l (last_from a xs) y).1
  unfolding unlink
  unlink-last a xs v =
      let split = Distinct-split y (a ∷ xs) [] v.distinct in
      let way = Links-prefix m a y xs [] v.linked.1 in
      let at_tail : y ≡ l.tail = ground (arith, last_from-append a y xs []) in
      let not_header : (y == l.header) ≡ false = ground (arith, split.1) in
      let len = length-append xs (y ∷ []) in
      rw (not_header, (==_iff y l.tail).1 at_tail)
        (record {
          list = rw (append-nil xs) (record {
            header = v.header;
            tail = refl;
            linked = (v.linked.0, way.0);
            count = omega (arith, len, v.count, v.fits);
            fits = omega (arith, len, v.fits);
            distinct = Distinct-prefix (a ∷ xs) (y ∷ []) v.distinct;
          });
          same_id = λ a. refl;
          same_link = λ a h. refl;
          ends = λ n. absurd (n refl);
        })

  unlink-middle :
      (a b : ℕ) (xs ys : List ℕ)
      → IsList m l (a ∷ xs ++ y ∷ b ∷ ys)
      → Removed m
          (a ∷ xs)
          (b ∷ ys)
          (unlink m l (last_from a xs) y).0
          (unlink m l (last_from a xs) y).1
  unfolding unlink write_next
  unlink-middle a b xs ys v =
      let split = Distinct-split y (a ∷ xs) (b ∷ ys) v.distinct in
      let way = Links-prefix m a y xs (b ∷ ys) v.linked.1 in
      let not_tail : (y == l.tail) ≡ false =
        ground (arith, last_from-append a y xs (b ∷ ys), last_from-ne y b ys split.2) in
      let not_header : (y == l.header) ≡ false = ground (arith, split.1) in
      let off = last_from-not_mem a xs (b ∷ ys) split.0 in
      rw (not_header, not_tail)
        (record {
          list = record {
            header = v.header;
            tail = v.tail ∙ last_from-append a y xs (b ∷ ys) ∙ sym (last_from-append a b xs ys);
            linked = (
              v.linked.0,
              Links-append (write_next m (last_from a xs) (m y).next) a b xs ys
                  (Links-write_last m (m y).next a xs
                    (Distinct-prefix (a ∷ xs) (y ∷ b ∷ ys) v.distinct) way.0)
                  way.3.0 (ground arith)
                  (Links-write_off m (last_from a xs) (m y).next b ys off way.3.2),
            );
            count =
                omega (
                  arith,
                  length-append xs (y ∷ b ∷ ys),
                  length-append xs (b ∷ ys),
                  v.count,
                  v.fits,
                );
            fits = omega (arith, length-append xs (y ∷ b ∷ ys), length-append xs (b ∷ ys), v.fits);
            distinct = split.0;
          };
          same_id = ground arith;
          same_link = ground arith;
          ends = λ n e.
              ground (arith, last_from-append a b xs ys, last_from-ne (last_from a xs) b ys off);
        })

  -- In each of its four cases the unlinking leaves the list without `y`.
  pub unlink-Removed :
      (xs ys : List ℕ)
      → IsList m l (xs ++ y ∷ ys)
      → Removed m xs ys
          (unlink m l (last_from l.header xs) y).0
          (unlink m l (last_from l.header xs) y).1
  unlink-Removed [] [] v = unlink-only v
  unlink-Removed [] (b ∷ bs) v = unlink-first b bs v
  unlink-Removed (a ∷ xs) [] v = unlink-last a xs v
  unlink-Removed (a ∷ xs) (b ∷ ys) v = unlink-middle a b xs ys v
