-- ===== src/LinkList/Tests.antt =====
-- The theorems on lists at a list of three links.
use mintos.Base.{ℕ, ◌≡◌, ◌≢◌, ◌+◌, refl, [], ◌∷◌, arith, ◌==◌, if◌then◌else◌, some}
use mintos.LinkList.{
  LinkList, Memory, null, add_list_to_tail, add_list_to_header, remove_list,
  remove_list_from_header, remove_list_from_tail,
}
use mintos.LinkList.Invariant.{IsList, Ends, last_or_null}
use mintos.LinkList.Add.{add_list_to_tail-IsList, add_list_to_header-IsList}
use mintos.LinkList.Unlink.{Removed}
use mintos.LinkList.Remove.{
  remove_list-Removed, remove_list-absent, remove_list_from_header-Removed,
  remove_list_from_tail-Removed, remove_list-twice,
}

-- The links at 16, 32 and 48 with the identifiers 1, 2 and 3.
abbrev three : Memory
three a =
    if a == 16
    then record { next = 32; id = 1 }
    else if a == 32
    then record { next = 48; id = 2 }
    else if a == 48
    then record { next = null; id = 3 }
    else record { next = null; id = 9 }

abbrev three_list : LinkList
three_list = record { count = 3; header = 16; tail = 48 }

three_list-IsList : IsList three three_list (16 ∷ 32 ∷ 48 ∷ [])
three_list-IsList = record {
  header = refl;
  tail = refl;
  linked = (ground arith, (ground arith, refl, (ground arith, refl, tt)));
  count = refl;
  fits = ground arith;
  distinct = (refl, (refl, (refl, tt)));
}

add_list_to_tail-IsList_example :
    let (m', l') = add_list_to_tail three three_list 64 in
    IsList m' l' (16 ∷ 32 ∷ 48 ∷ 64 ∷ [])
    × Ends m' (16 ∷ 32 ∷ 48 ∷ 64 ∷ [])
    × ((a : ℕ) → (m' a).id ≡ (three a).id)
    × ((a : ℕ) → a ≢ 64 → a ≢ last_or_null (16 ∷ 32 ∷ 48 ∷ []) → m' a ≡ three a)
add_list_to_tail-IsList_example =
    add_list_to_tail-IsList three three_list (16 ∷ 32 ∷ 48 ∷ []) 64 three_list-IsList (ground arith)
      refl (ground arith)

add_list_to_header-IsList_example :
    let (m', l') = add_list_to_header three three_list 64 in
    IsList m' l' (64 ∷ 16 ∷ 32 ∷ 48 ∷ [])
    × ((a : ℕ) → (m' a).id ≡ (three a).id)
    × ((a : ℕ) → a ≢ 64 → m' a ≡ three a)
add_list_to_header-IsList_example =
    add_list_to_header-IsList three three_list (16 ∷ 32 ∷ 48 ∷ []) 64 three_list-IsList
      (ground arith) refl (ground arith)

remove_list-Removed_example :
    (m' : Memory) × (l' : LinkList) × (remove_list 3 three three_list 2 ≡ some (m', l', 32))
    × Removed three (16 ∷ []) (48 ∷ []) m' l'
remove_list-Removed_example =
    remove_list-Removed 3 three three_list (16 ∷ []) (48 ∷ []) 32 three_list-IsList
      (ground arith, tt) (ground arith)

remove_list-absent_example : remove_list 4 three three_list 7 ≡ some (three, three_list, null)
remove_list-absent_example =
    remove_list-absent 4 three three_list (16 ∷ 32 ∷ 48 ∷ []) 7 three_list-IsList refl
      (ground arith, (ground arith, (ground arith, tt))) (ground arith)

remove_list_from_header-Removed_example :
    (m' : Memory) × (l' : LinkList) × (remove_list_from_header 1 three three_list
      ≡ some (m', l', 16))
    × Removed three [] (32 ∷ 48 ∷ []) m' l'
remove_list_from_header-Removed_example =
    remove_list_from_header-Removed 0 three three_list 16 (32 ∷ 48 ∷ []) three_list-IsList

remove_list_from_tail-Removed_example :
    (m' : Memory) × (l' : LinkList) × (remove_list_from_tail 3 three three_list ≡ some (m', l', 48))
    × Removed three (16 ∷ 32 ∷ []) [] m' l'
remove_list_from_tail-Removed_example =
    remove_list_from_tail-Removed 3 three three_list (16 ∷ 32 ∷ []) 48 three_list-IsList
      (ground arith, (ground arith, tt)) (ground arith)

remove_list-twice_example :
    (l' : LinkList) × (m'' : Memory) × (l'' : LinkList) × (remove_list 4 three three_list 3
      ≡ some (three, l', 48))
    × IsList three l' (16 ∷ 32 ∷ [])
    × (remove_list 4 three l' 3 ≡ some (m'', l'', 48))
    × (l''.count + 1 ≡ 2)
remove_list-twice_example =
    remove_list-twice 4 three three_list 16 (32 ∷ []) 48 three_list-IsList
      (ground arith, (ground arith, tt)) (ground arith)
