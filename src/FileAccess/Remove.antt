-- ===== src/FileAccess/Remove.antt =====
-- kRemoveFile leaves an open file alone.
use mintos.Base.{
  ℕ, ◌≡◌, inl, inr, refl, ap, sym, ◌∙◌, subst, true, false, none, some, List, ◌<◌, arith, ltb,
  ltb→lt, Bool-cases, Option-cases, get_or,
}
use mintos.Volume.{
  data_area, BlockOps, DirectoryEntry, FileHandle, File, Manager, returns, minus_one,
  max_directory_entry_count, lock, unlock,
}
use mintos.Volume.View.{BlockView, BlockLaws, SameBlocks}
use mintos.Handle.{is_file_opened}
use mintos.Handle.Pool.{any_opened-file}
use mintos.Directory.{entry_at, find_directory_entry}
use mintos.Directory.Find.{AreBytes, BeginsWith, IsFirst, IsLookup, find_directory_entry-IsLookup}
use mintos.FileAccess.Names.{is_bad_name, remove_found, remove_file}

module _ {S : Type 0} (ops : BlockOps S) (view : BlockView S) (laws : BlockLaws view ops)
    (m : Manager S) (name bytes : List ℕ) where
  open view use {IsGood, IsInside, shown}

  pool-find : (find_directory_entry ops (lock m) name).1.handle_pool ≡ m.handle_pool
  unfolding find_directory_entry
  pool-find = ground arith

  remove-none :
      (fuel : ℕ)
      → is_bad_name name ≡ false
      → (find_directory_entry ops (lock m) name).0 ≡ none
      → remove_file ops fuel m name
        ≡ returns (minus_one, unlock (find_directory_entry ops (lock m) name).1)
  unfolding remove_file
  remove-none fuel b e = rw (b, e, remove_file) refl

  remove-opened :
      (fuel k : ℕ) (e : DirectoryEntry)
      → is_bad_name name ≡ false
      → (find_directory_entry ops (lock m) name).0 ≡ some (k, e)
      → is_file_opened (find_directory_entry ops (lock m) name).1 e ≡ true
      → remove_file ops fuel m name
        ≡ returns (minus_one, unlock (find_directory_entry ops (lock m) name).1)
  unfolding remove_file remove_found
  remove-opened fuel k e b f o = rw (b, f, remove_file) (rw (o, remove_found) refl)

  remove-bad :
      (fuel : ℕ) → is_bad_name name ≡ true → remove_file ops fuel m name ≡ returns (minus_one, m)
  unfolding remove_file
  remove-bad fuel b = rw (b, remove_file) refl

  -- What a refused removal comes to.
  pub record IsRefused (r : ℕ × Manager S) : Type 0 where
    pub returned : r.0 ≡ minus_one
    pub same : SameBlocks view m.blocks r.1.blocks
    pub pool : r.1.handle_pool ≡ m.handle_pool

  module _ (are_bytes : AreBytes bytes) (name_bytes : AreBytes name) (mounted : m.mounted ≡ true)
      (good : IsGood m.blocks) (inside : IsInside data_area 0)
      (directory : shown m.blocks data_area 0 ≡ some bytes) (i : ℕ) (h : FileHandle)
      (open_file : get_or m.handle_pool i File.free ≡ File.file h) (k : ℕ)
      (low : k < max_directory_entry_count) (named : BeginsWith bytes k name)
      (first : (j : ℕ) → j < k → ¬ (BeginsWith bytes j name))
      (its : (entry_at bytes k).start_cluster_index ≡ h.start_cluster_index) where
    lookup :
        IsLookup bytes name are_bytes name_bytes ops view laws
          (lock m)
          (find_directory_entry ops (lock m) name)
    lookup =
        find_directory_entry-IsLookup bytes name are_bytes name_bytes ops view laws (lock m) mounted
          good inside directory

    opened :
        (e : DirectoryEntry)
        → e ≡ entry_at bytes k
        → is_file_opened (find_directory_entry ops (lock m) name).1 e ≡ true
    unfolding is_file_opened
    opened e at = rw (pool-find, at, its) (any_opened-file m.handle_pool i h open_file)

    found :
        (l : ℕ) (e : DirectoryEntry)
        → (find_directory_entry ops (lock m) name).0 ≡ some (l, e)
        → e ≡ entry_at bytes k
    found l e f = elim lookup.result [
      | inl failed ↦
          absurd (let contra : none ≡ some (l, e) = sym failed.1 ∙ f in ground (arith, contra))
      | inr q ↦
          let q' =
            subst (IsFirst bytes name are_bytes name_bytes 0 max_directory_entry_count) f q in
          elim (Bool-cases (ltb l k)) [
            | inl before ↦ absurd (first l (ltb→lt l k before) q'.2)
            | inr after ↦ elim (Bool-cases (ltb k l)) [
              | inl before ↦ absurd (q'.4 k (omega arith) (ltb→lt k l before) named)
              | inr same ↦
                  let at : l ≡ k = ground (arith, after, same) in
                  q'.3 ∙ ap (λ z. entry_at bytes z) at
            ]
          ]
    ]

    -- A file that is open is not removed from a mounted volume: where the directory shows some
    -- bytes and the first entry of the directory that begins with the name has the start cluster of
    -- an open handle, kRemoveFile returns -1, changes no block, and leaves every handle as it is.
    pub remove_file-IsRefused :
        (fuel : ℕ) → (r : ℕ × Manager S) × (remove_file ops fuel m name ≡ returns r) × IsRefused r
    remove_file-IsRefused fuel =
        let f = find_directory_entry ops (lock m) name in
        let kept : IsRefused (minus_one, unlock f.1) = record {
          returned = refl;
          same = lookup.same;
          pool = pool-find;
        } in
        elim (Bool-cases (is_bad_name name)) [
          | inl bad ↦ (
            _,
            remove-bad fuel bad,
            record { returned = refl; same = λ a b c. refl; pool = refl },
          )
          | inr fine ↦ elim (Option-cases f.0) [
            | inl e ↦ (_, remove-none fuel fine e, kept)
            | inr (p, e) ↦
                let at : f.0 ≡ some (p.0, p.1) = e in
                (_, remove-opened fuel p.0 p.1 fine at (opened p.1 (found p.0 p.1 at)), kept)
          ]
        ]
