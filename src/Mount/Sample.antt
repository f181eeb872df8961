-- ===== src/Mount/Sample.antt =====
-- A disk in memory, with a number in the place of the bytes of a sector, that keeps runs of sectors;
-- so the blocks of a mounted disk without the cache have their laws on it.
use mintos.Base.{
  ℕ, zero, suc, ◌+◌, ◌-◌, ◌≤◌, ◌<◌, ◌≡◌, inl, inr, refl, ap, ◌∙◌, true, ◌&&◌, Option, none, some,
  List, [], ◌∷◌, arith, ◌==◌, ltb, leb, if◌then◌else◌, length, get_or, Bool-cases, ==_iff,
}
use mintos.FileSystem.{Driver}
use mintos.Volume.View.{BlockLaws}
use mintos.Mount.{block_ops}
use mintos.Mount.Uncached.{KeepsRuns, disk_view, block_ops-BlockLaws}

abbrev Sectors : Type 0
Sectors = ℕ → ℕ

-- The `n` sectors from `a` on.
abbrev run : Sectors → (a n : ℕ) → List ℕ
run d a zero = []
run d a (suc n) = d a ∷ run d (a + 1) n

abbrev overwrite : Sectors → (a n : ℕ) → List ℕ → Sectors
overwrite d a n bytes x = if leb a x && ltb x (a + n) then get_or bytes (x - a) 0 else d x

abbrev memory_driver : Driver Sectors
memory_driver = record {
  read_sectors = λ d a n. some (run d a n);
  write_sectors = λ d a n bytes. if length bytes == n then some (overwrite d a n bytes) else none;
}

abbrev or_sectors : Sectors → Option Sectors → Sectors
or_sectors d none = d
or_sectors d (some e) = e

taken :
    (d d' : Sectors) (a n : ℕ) (bytes : List ℕ)
    → memory_driver.write_sectors d a n bytes ≡ some d'
    → (length bytes ≡ n) × (overwrite d a n bytes ≡ d')
taken d d' a n bytes h = elim (Bool-cases (length bytes == n)) [
  | inl e ↦
      let now : some (overwrite d a n bytes) ≡ some d' = rw e at h in
      ((==_iff (length bytes) n).0 e, ap (or_sectors d) now)
  | inr e ↦ let contra : none ≡ some d' = rw e at h in absurd (ground (arith, contra))
]

-- Runs that agree sector by sector, and a run that shows a list.
run-same :
    (d e : Sectors) (a n : ℕ) → ((x : ℕ) → a ≤ x → x < a + n → d x ≡ e x) → run d a n ≡ run e a n
run-same d e a zero h = refl
run-same d e a (suc n) h =
    rw
      (
        h a (omega arith) (omega arith),
        run-same d e (a + 1) n (λ x lo hi. h x (omega arith) (omega arith)),
      )
      refl

run-shows :
    (d : Sectors) (a : ℕ) (bytes : List ℕ)
    → ((i : ℕ) → i < length bytes → d (a + i) ≡ get_or bytes i 0)
    → run d a (length bytes) ≡ bytes
run-shows d a [] h = refl
run-shows d a (b ∷ bs) h =
    let first : d a ≡ b = ap d (omega arith) ∙ h 0 (omega arith) in
    let rest = run-shows d (a + 1) bs (λ i l. ap d (omega arith) ∙ h (suc i) (omega arith)) in
    rw (first, rest) refl

overwrite-at :
    (d : Sectors) (a : ℕ) (bytes : List ℕ) (i : ℕ)
    → i < length bytes
    → overwrite d a (length bytes) bytes (a + i) ≡ get_or bytes i 0
overwrite-at d a bytes i l =
    let inside : (leb a (a + i) && ltb (a + i) (a + length bytes)) ≡ true = ground (arith, l) in
    let same : a + i - a ≡ i = omega arith in rw (inside, same) refl

memory_driver-KeepsRuns : KeepsRuns memory_driver
memory_driver-KeepsRuns = record {
  written = λ d d' a n bytes h.
      let t = taken d d' a n bytes h in
      rw (← t.1, ← t.0)
        (ap some (run-shows (overwrite d a (length bytes) bytes) a bytes (overwrite-at d a bytes)));
  others = λ d d' a n b k bytes out h.
      let t = taken d d' a n bytes h in
      rw (← t.1)
        (ap some (run-same (overwrite d a n bytes) d b k (λ x lo hi. ground (arith, out))));
}

-- A volume with the link table in the sectors 1 to 8.
sample-BlockLaws : BlockLaws (disk_view memory_driver 1 9) (block_ops memory_driver)
sample-BlockLaws = block_ops-BlockLaws memory_driver 1 9 memory_driver-KeepsRuns (omega arith)
