-- ===== src/LinkList.antt =====
-- 02.Kernel64/List.c and List.h: the kernel's intrusive singly linked list.
-- Memory is flat and every address can be read, so it is a total function from an address to the
-- LISTLINK that lies there; NULL is 0. `iItemCount` is the bit pattern of an `int`.
pub mod Add
pub mod Invariant
pub mod Remove
mod Tests
pub mod Unlink
use mintos.Base.{ℕ, zero, suc, ◌&&◌, Option, none, some, ◌==◌, if◌then◌else◌, inc32, dec32}

-- LISTLINK
pub record Link : Type 0 where
  pub next : ℕ
  pub id : ℕ

-- LIST
pub record LinkList : Type 0 where
  pub count : ℕ
  pub header : ℕ
  pub tail : ℕ

abbrev pub Memory : Type 0
Memory = ℕ → Link

abbrev pub null : ℕ
null = 0

-- `p->pvNext = q`
unfoldable pub write_next : Memory → ℕ → ℕ → Memory
write_next m p q a = if a == p then record (m a) { next = q } else m a

-- kInitializeList
unfoldable pub initialize_list : LinkList
initialize_list = record { count = 0; header = null; tail = null }

-- kGetListCount
abbrev pub get_list_count : LinkList → ℕ
get_list_count l = l.count

-- kAddListToTail
unfoldable pub add_list_to_tail : Memory → LinkList → ℕ → Memory × LinkList
unfolding write_next
add_list_to_tail m l item =
    let m' = write_next m item null in
    if l.header == null
    then (m', record { count = 1; header = item; tail = item })
    else (write_next m' l.tail item, record l { count = inc32 l.count; tail = item })

-- kAddListToHeader
unfoldable pub add_list_to_header : Memory → LinkList → ℕ → Memory × LinkList
unfolding write_next
add_list_to_header m l item =
    let m' = write_next m item l.header in
    if l.header == null
    then (m', record { count = 1; header = item; tail = item })
    else (m', record l { count = inc32 l.count; header = item })

-- The four cases of kRemoveList at the link that it has found.
unfoldable pub unlink : Memory → LinkList → (prev link : ℕ) → Memory × LinkList
unfolding write_next
unlink m l prev link =
    let n = dec32 l.count in
    if (link == l.header) && (link == l.tail)
    then (m, record { count = n; header = null; tail = null })
    else if link == l.header
    then (m, record l { count = n; header = (m link).next })
    else if link == l.tail
    then (m, record l { count = n; tail = prev })
    else (write_next m prev (m link).next, record l { count = n })

-- The `for` loop of kRemoveList, on fuel: `none` means that the fuel ran out.
unfoldable pub remove_loop :
    ℕ → Memory → LinkList → (id prev link : ℕ) → Option (Memory × LinkList × ℕ)
remove_loop zero m l id prev link = none
remove_loop (suc fuel) m l id prev link =
    let further = remove_loop fuel m l id link (m link).next in
    let (m', l') = unlink m l prev link in
    if link == null
    then some (m, l, null)
    else if (m link).id == id
    then some (m', l', link)
    else further

-- kRemoveList: the new memory and list, and the link that was taken out, or NULL.
unfoldable pub remove_list : ℕ → Memory → LinkList → ℕ → Option (Memory × LinkList × ℕ)
remove_list fuel m l id = remove_loop fuel m l id l.header l.header

-- kRemoveListFromHeader
unfoldable pub remove_list_from_header : ℕ → Memory → LinkList → Option (Memory × LinkList × ℕ)
remove_list_from_header fuel m l =
    if l.count == 0 then some (m, l, null) else remove_list fuel m l (m l.header).id

-- kRemoveListFromTail
unfoldable pub remove_list_from_tail : ℕ → Memory → LinkList → Option (Memory × LinkList × ℕ)
remove_list_from_tail fuel m l =
    if l.count == 0 then some (m, l, null) else remove_list fuel m l (m l.tail).id
