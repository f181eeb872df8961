-- ===== src/Handle/Pool.antt =====
-- The pool of handles: which handle is taken, and what an open file is found by.
use mintos.Base.{
  ℕ, zero, suc, ◌+◌, ◌<◌, ◌≡◌, ◌≢◌, inl, inr, refl, subst, true, Option, none, some, List, [], ◌∷◌,
  arith, Option-cases, length, get_or, set,
}
use mintos.Volume.{FileHandle, zero_handle, File, Manager}
use mintos.Handle.{first_free, any_opened, allocate_file_directory_handle}

abbrev at : List File → ℕ → File
at pool i = get_or pool i File.free

-- What the search for a FREE handle comes to.
abbrev pub IsFirstFree : List File → Option ℕ → Type 0
IsFirstFree pool none = (j : ℕ) → j < length pool → get_or pool j File.free ≢ File.free
IsFirstFree pool (some i) =
    (i < length pool)
    × (get_or pool i File.free ≡ File.free)
    × ((j : ℕ) → j < i → get_or pool j File.free ≢ File.free)

taken-cons :
    (f : File) (pool : List File) (o : Option ℕ)
    → f ≢ File.free
    → IsFirstFree pool o
    → IsFirstFree (f ∷ pool) (elim o [ none ↦ none | some i ↦ some (i + 1) ])
taken-cons f pool none used h = all_used
  where
    all_used : (j : ℕ) → j < suc (length pool) → get_or (f ∷ pool) j File.free ≢ File.free
    all_used zero lt = used
    all_used (suc j) lt = h j (omega arith)
taken-cons f pool (some i) used h =
    let e : i + 1 ≡ suc i = omega arith in rw e (omega (arith, h.0), h.1, before)
  where
    before : (j : ℕ) → j < suc i → get_or (f ∷ pool) j File.free ≢ File.free
    before zero lt = used
    before (suc j) lt = h.2 j (omega arith)

first_free-IsFirstFree : (pool : List File) → IsFirstFree pool (first_free pool)
unfolding first_free
first_free-IsFirstFree [] = λ j lt. absurd (omega (arith, lt))
first_free-IsFirstFree (File.free ∷ pool) = (omega arith, refl, λ j lt. absurd (omega (arith, lt)))
first_free-IsFirstFree (File.file h ∷ pool) =
    taken-cons (File.file h) pool (first_free pool) (λ e. cc) (first_free-IsFirstFree pool)
first_free-IsFirstFree (File.directory d ∷ pool) =
    taken-cons (File.directory d) pool (first_free pool) (λ e. cc) (first_free-IsFirstFree pool)

-- What kAllocateFileDirectoryHandle comes to.
pub record IsAllocated {S : Type 0} (m : Manager S) (r : Option ℕ × Manager S) : Type 0 where
  pub first : IsFirstFree m.handle_pool r.0
  pub pool :
      (i : ℕ)
      → r.0 ≡ some i
      → r.1 ≡ record m { handle_pool = set m.handle_pool i (File.file zero_handle) }
  pub full : r.0 ≡ none → r.1 ≡ m

-- kAllocateFileDirectoryHandle takes the first FREE handle of the pool, which becomes a file with a
-- zero handle and is all that changes; it returns NULL, and changes nothing, only if no handle is
-- FREE.
pub allocate_file_directory_handle-IsAllocated :
    {S : Type 0} (m : Manager S) → IsAllocated m (allocate_file_directory_handle m)
unfolding allocate_file_directory_handle
allocate_file_directory_handle-IsAllocated m = elim (Option-cases (first_free m.handle_pool)) [
  | inl e ↦
      rw (e, allocate_file_directory_handle)
        (record {
          first = subst (IsFirstFree m.handle_pool) e (first_free-IsFirstFree m.handle_pool);
          pool = λ i f. absurd (ground (arith, f));
          full = λ f. refl;
        })
  | inr (i, e) ↦
      rw (e, allocate_file_directory_handle)
        (record {
          first = subst (IsFirstFree m.handle_pool) e (first_free-IsFirstFree m.handle_pool);
          pool = λ j f. let same : i ≡ j = cc in rw same refl;
          full = λ f. absurd (ground (arith, f));
        })
]

-- A file that is open is found by its start cluster.
pub any_opened-file :
    (pool : List File) (i : ℕ) (h : FileHandle)
    → get_or pool i File.free ≡ File.file h
    → any_opened pool h.start_cluster_index ≡ true
unfolding any_opened
any_opened-file [] i h e = absurd (ground (arith, e))
any_opened-file (File.free ∷ pool) zero h e = absurd (ground (arith, e))
any_opened-file (File.directory d ∷ pool) zero h e = absurd (ground (arith, e))
any_opened-file (File.file g ∷ pool) zero h e = ground (arith, e)
any_opened-file (File.free ∷ pool) (suc i) h e = any_opened-file pool i h e
any_opened-file (File.directory d ∷ pool) (suc i) h e = any_opened-file pool i h e
any_opened-file (File.file g ∷ pool) (suc i) h e = ground (arith, any_opened-file pool i h e)
