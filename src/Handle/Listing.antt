-- ===== src/Handle/Listing.antt =====
-- kReadDirectory goes through the entries in use in their order.
use mintos.Base.{
  ℕ, zero, suc, ◌+◌, ◌-◌, ◌<◌, ◌≤◌, ◌≡◌, ◌≢◌, inl, inr, sym, subst, Option, none, some, List, arith,
  ◌==◌, Bool-cases, Option-cases, ==_iff, get_or,
}
use mintos.Volume.{
  DirectoryEntry, DirectoryHandle, File, Manager, max_directory_entry_count, lock, unlock,
}
use mintos.Directory.{entry_at}
use mintos.Handle.{next_entry, read_directory_at, read_directory, put_file}

abbrev pub IsUsed : List ℕ → ℕ → Type 0
IsUsed bytes i = (entry_at bytes i).start_cluster_index ≢ 0

-- What the search from `i` to `n` comes to.
abbrev pub IsNext : List ℕ → (i n : ℕ) → Option ℕ → Type 0
IsNext bytes i n none = (j : ℕ) → i ≤ j → j < n → ¬ (IsUsed bytes j)
IsNext bytes i n (some k) =
    (i ≤ k) × (k < n) × IsUsed bytes k × ((j : ℕ) → i ≤ j → j < k → ¬ (IsUsed bytes j))

unused-cons :
    (bytes : List ℕ) (i n : ℕ) (o : Option ℕ)
    → (entry_at bytes i).start_cluster_index ≡ 0
    → IsNext bytes (i + 1) n o
    → IsNext bytes i n o
unused-cons bytes i n none z h = λ j le lt used. elim (Bool-cases (j == i)) [
  | inl at ↦
      used (subst (λ x. (entry_at bytes x).start_cluster_index ≡ 0) (sym ((==_iff j i).0 at)) z)
  | inr later ↦ h j (ground (arith, le, later)) lt used
]
unused-cons bytes i n (some k) z h = (
  omega (arith, h.0),
  h.1,
  h.2,
  λ j le lt used. elim (Bool-cases (j == i)) [
    | inl at ↦
        used (subst (λ x. (entry_at bytes x).start_cluster_index ≡ 0) (sym ((==_iff j i).0 at)) z)
    | inr later ↦ h.3 j (ground (arith, le, later)) lt used
  ],
)

next_entry-IsNext :
    (left i n : ℕ) (bytes : List ℕ) → i + left ≡ n → IsNext bytes i n (next_entry left i bytes)
unfolding next_entry
next_entry-IsNext zero i n bytes e = λ j le lt. absurd (omega (arith, le, lt, e))
next_entry-IsNext (suc left) i n bytes e =
    elim (Bool-cases ((entry_at bytes i).start_cluster_index == 0)) [
      | inl z ↦ rw z (
          unused-cons bytes i n (next_entry left (i + 1) bytes) ((==_iff _ _).0 z)
            (next_entry-IsNext left (i + 1) n bytes (omega (arith, e))))
      | inr used ↦ rw used (
        omega arith,
        omega (arith, e),
        λ z. absurd (ground (arith, used, z)),
        λ j le lt. absurd (omega (arith, le, lt)),
      )
    ]

abbrev pub offset_after : Option ℕ → ℕ
offset_after none = max_directory_entry_count
offset_after (some k) = k + 1

abbrev pub entry_of : List ℕ → Option ℕ → Option DirectoryEntry
entry_of bytes none = none
entry_of bytes (some k) = some (entry_at bytes k)

-- kReadDirectory at an open directory whose offset is an index returns the next entry in use, from
-- its offset on, and moves the offset behind it; if no entry in use is left it returns NULL and
-- moves the offset to the end. Nothing else changes.
pub read_directory-IsNext :
    {S : Type 0} (m : Manager S) (i : ℕ) (d : DirectoryHandle)
    → get_or m.handle_pool i File.free ≡ File.directory d
    → d.current_offset < max_directory_entry_count
    → (o : Option ℕ) × IsNext d.directory_buffer d.current_offset max_directory_entry_count o
      × (read_directory m (some i) ≡ (
        entry_of d.directory_buffer o,
        unlock
            (put_file (lock m) i (File.directory (record d { current_offset = offset_after o }))),
      ))
unfolding read_directory read_directory_at
read_directory-IsNext m i d here low =
    let left = max_directory_entry_count - d.current_offset in
    let found = next_entry left d.current_offset d.directory_buffer in
    (
      found,
      next_entry-IsNext left d.current_offset max_directory_entry_count d.directory_buffer
          (omega (arith, low)),
      rw here (elim (Option-cases found) [
        | inl e ↦ ground (arith, e, low)
        | inr (k, e) ↦ ground (arith, e, low)
      ]),
    )
