-- ===== src/Directory/Find.antt =====
-- Which entry kFindDirectoryEntry finds: it compares as many bytes as the given name has, so a
-- longer name that begins with it is taken for it.
use mintos.Base.{
  ℕ, zero, suc, ◌+◌, ◌*◌, ◌<◌, ◌≤◌, ◌≡◌, ◌⊎◌, ◌↔◌, inl, inr, refl, sym, ◌∙◌, subst, true, false,
  Option, none, some, List, arith, ◌==◌, Bool-cases, Option-cases, ==_iff, length, get_or,
}
use mintos.Volume.{data_area, BlockOps, DirectoryEntry, Manager, max_directory_entry_count}
use mintos.Volume.View.{BlockView, BlockLaws, SameBlocks, IsReadOf}
use mintos.Memory.{mem_cmp}
use mintos.Memory.Compare.{mem_cmp-zero}
use mintos.Directory.{entry_at, name_matches, scan_names, find_directory_entry}

-- The bytes of a list, each below 256.
abbrev pub AreBytes : List ℕ → Type 0
AreBytes bytes = (k : ℕ) → get_or bytes k 0 < 256

-- The name of the entry `i` begins with the given name.
abbrev pub BeginsWith : List ℕ → ℕ → List ℕ → Type 0
BeginsWith bytes i name = (k : ℕ) → k < length name → get_or bytes (32 * i + k) 0 ≡ get_or name k 0

module _ (bytes name : List ℕ) (are_bytes : AreBytes bytes) (name_bytes : AreBytes name) where
  name_matches_iff : (i : ℕ) → (name_matches bytes i name ≡ true) ↔ BeginsWith bytes i name
  unfolding name_matches
  name_matches_iff i =
      let compared =
        mem_cmp-zero (λ k. get_or bytes (32 * i + k) 0) (λ k. get_or name k 0)
          (λ k. are_bytes (32 * i + k)) name_bytes (length name) in
      let zeroed =
        ==_iff (mem_cmp (λ k. get_or bytes (32 * i + k) 0) (λ k. get_or name k 0) (length name))
          0 in
      (
        λ e k lt. compared.0 (zeroed.0 e) k (omega arith) lt,
        λ h. zeroed.1 (compared.1 (λ k ge lt. h k lt)),
      )

  -- What the search among the entries from `i` to `n` comes to.
  abbrev pub IsFirst : (i n : ℕ) → Option (ℕ × DirectoryEntry) → Type 0
  IsFirst i n none = (j : ℕ) → i ≤ j → j < n → ¬ (BeginsWith bytes j name)
  IsFirst i n (some (k, e)) =
      (i ≤ k)
      × (k < n)
      × BeginsWith bytes k name
      × (e ≡ entry_at bytes k)
      × ((j : ℕ) → i ≤ j → j < k → ¬ (BeginsWith bytes j name))

  IsFirst-cons :
      (i n : ℕ) (o : Option (ℕ × DirectoryEntry))
      → ¬ (BeginsWith bytes i name)
      → IsFirst (i + 1) n o
      → IsFirst i n o
  IsFirst-cons i n none other h = λ j le lt b. elim (Bool-cases (j == i)) [
    | inl at ↦ other (subst (λ z. BeginsWith bytes z name) ((==_iff j i).0 at) b)
    | inr later ↦ h j (ground (arith, le, later)) lt b
  ]
  IsFirst-cons i n (some (k, e)) other h = (
    omega (arith, h.0),
    h.1,
    h.2,
    h.3,
    λ j le lt b. elim (Bool-cases (j == i)) [
      | inl at ↦ other (subst (λ z. BeginsWith bytes z name) ((==_iff j i).0 at) b)
      | inr later ↦ h.4 j (ground (arith, le, later)) lt b
    ],
  )

  scan_names-IsFirst : (left i n : ℕ) → i + left ≡ n → IsFirst i n (scan_names left i bytes name)
  unfolding scan_names
  scan_names-IsFirst zero i n h = λ j le lt. absurd (omega (arith, le, lt, h))
  scan_names-IsFirst (suc left) i n h = elim (Bool-cases (name_matches bytes i name)) [
    | inl e ↦ rw e (
      omega arith,
      omega (arith, h),
      (name_matches_iff i).0 e,
      refl,
      λ j le lt. absurd (omega (arith, le, lt)),
    )
    | inr e ↦ rw e (
        IsFirst-cons i n (scan_names left (i + 1) bytes name)
          (λ b. absurd (
            let contra : true ≡ false = sym ((name_matches_iff i).1 b) ∙ e in
            ground (arith, contra)))
          (scan_names-IsFirst left (i + 1) n (omega (arith, h))))
  ]

  module _ {S : Type 0} (ops : BlockOps S) (view : BlockView S) (laws : BlockLaws view ops)
      (m : Manager S) where
    open view use {IsGood, IsInside, shown}

    -- What kFindDirectoryEntry comes to on a directory of these bytes: a failure of the device, or
    -- the first entry that begins with the name, if there is one.
    pub record IsLookup (r : Option (ℕ × DirectoryEntry) × Manager S) : Type 0 where
      pub good : IsGood r.1.blocks
      pub same : SameBlocks view m.blocks r.1.blocks
      pub result :
          (((ops.read m.blocks data_area 0).0 ≡ none) × (r.0 ≡ none))
          ⊎ IsFirst 0 max_directory_entry_count r.0

    module _ (mounted : m.mounted ≡ true) (good : IsGood m.blocks) (inside : IsInside data_area 0)
        (directory : shown m.blocks data_area 0 ≡ some bytes) where
      abbrev cluster : Option (List ℕ) × S
      cluster = ops.read m.blocks data_area 0

      read : IsReadOf view m.blocks data_area 0 cluster
      read = laws.reads m.blocks data_area 0 good inside

      unread :
          cluster.0 ≡ none
          → find_directory_entry ops m name ≡ (none, record m { blocks = cluster.1 })
      unfolding find_directory_entry
      unread e = ground (arith, mounted)

      searched :
          cluster.0 ≡ some bytes
          → find_directory_entry ops m name
            ≡ (scan_names max_directory_entry_count 0 bytes name, record m { blocks = cluster.1 })
      unfolding find_directory_entry
      searched e = ground (arith, mounted)

      -- On a mounted volume whose directory shows some bytes, kFindDirectoryEntry returns the first
      -- of the 128 entries whose name begins with the given name, and -1 only if no entry does or
      -- the directory cannot be read. It changes no block.
      pub find_directory_entry-IsLookup : IsLookup (find_directory_entry ops m name)
      find_directory_entry-IsLookup = elim (Option-cases cluster.0) [
        | inl e ↦
            rw (unread e) (record { good = read.good; same = read.same; result = inl (e, refl) })
        | inr (b, e) ↦
            let at : cluster.0 ≡ some bytes = elim read.result [
              | inl failed ↦
                  absurd (let contra : none ≡ some b = sym failed ∙ e in ground (arith, contra))
              | inr shows ↦ shows ∙ directory
            ] in
            rw (searched at) (record {
              good = read.good;
              same = read.same;
              result = inr (
                  scan_names-IsFirst max_directory_entry_count 0 max_directory_entry_count
                    (omega arith));
            })
      ]
