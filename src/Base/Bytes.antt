-- ===== src/Base/Bytes.antt =====
-- Buffers of bytes: kMemCpy into the middle of one, and the DWORDs of one read in little-endian
-- order.
use Prim.Native.Nat.{ℕ, zero, suc, ◌+◌, ◌*◌, ◌/◌, ◌%◌, ◌^◌, ◌≤◌, ◌<◌}
use mathlib.Core.Path.{◌≡◌, refl, ap}
use mathlib.Core.Logic.{◌≢◌, ◌⊎◌, inl, inr}
use mathlib.Core.List.{List, [], ◌∷◌}
use native.Mathlib.Omega.{arith}
use mintos.Base.Seq.{length, get_or}

-- The bytes of `new` over those of a buffer from `n` on. A byte out of bounds is not written.
unfoldable pub copy_at : List ℕ → (n : ℕ) → (new : List ℕ) → List ℕ
copy_at [] n new = []
copy_at (x ∷ xs) zero [] = x ∷ xs
copy_at (x ∷ xs) zero (v ∷ vs) = v ∷ copy_at xs zero vs
copy_at (x ∷ xs) (suc n) new = x ∷ copy_at xs n new

pub length-copy_at : (xs : List ℕ) (n : ℕ) (new : List ℕ) → length (copy_at xs n new) ≡ length xs
unfolding copy_at
length-copy_at [] n new = refl
length-copy_at (x ∷ xs) zero [] = refl
length-copy_at (x ∷ xs) zero (v ∷ vs) = ap suc (length-copy_at xs zero vs)
length-copy_at (x ∷ xs) (suc n) new = ap suc (length-copy_at xs n new)

-- A copied byte is read back.
pub get_or-copy_at :
    (xs : List ℕ) (n k : ℕ) (new : List ℕ)
    → n + k < length xs
    → k < length new
    → get_or (copy_at xs n new) (n + k) 0 ≡ get_or new k 0
unfolding copy_at
get_or-copy_at [] n k new h l = absurd (omega arith)
get_or-copy_at (x ∷ xs) zero k [] h l = absurd (omega arith)
get_or-copy_at (x ∷ xs) zero zero (v ∷ vs) h l = refl
get_or-copy_at (x ∷ xs) zero (suc k) (v ∷ vs) h l =
    let e : 0 + suc k ≡ suc (0 + k) = omega arith in
    rw e (get_or-copy_at xs zero k vs (omega arith) (omega arith))
get_or-copy_at (x ∷ xs) (suc n) k new h l =
    let e : suc n + k ≡ suc (n + k) = omega arith in
    rw e (get_or-copy_at xs n k new (omega arith) l)

-- The other bytes stay.
pub get_or-copy_at_other :
    (xs : List ℕ) (n i : ℕ) (new : List ℕ)
    → (i < n) ⊎ (n + length new ≤ i)
    → get_or (copy_at xs n new) i 0 ≡ get_or xs i 0
unfolding copy_at
get_or-copy_at_other [] n i new h = refl
get_or-copy_at_other (x ∷ xs) zero i [] h = refl
get_or-copy_at_other (x ∷ xs) zero zero (v ∷ vs) h = absurd (ground arith)
get_or-copy_at_other (x ∷ xs) zero (suc i) (v ∷ vs) h =
    get_or-copy_at_other xs zero i vs (inr (ground arith))
get_or-copy_at_other (x ∷ xs) (suc n) zero new h = refl
get_or-copy_at_other (x ∷ xs) (suc n) (suc i) new h =
    get_or-copy_at_other xs n i new
      (elim h [ inl l ↦ inl (omega arith) | inr l ↦ inr (omega arith) ])

-- `((DWORD *)buffer)[j]`
unfoldable pub dword_at : List ℕ → ℕ → ℕ
dword_at bytes j =
    get_or bytes (4 * j + 0) 0
    + 256 * get_or bytes (4 * j + 1) 0
    + 65_536 * get_or bytes (4 * j + 2) 0
    + 16_777_216 * get_or bytes (4 * j + 3) 0

unfoldable pub dword_bytes : ℕ → List ℕ
dword_bytes d = d % 256 ∷ d / 256 % 256 ∷ d / 65_536 % 256 ∷ d / 16_777_216 % 256 ∷ []

-- `((DWORD *)buffer)[j] = d`
unfoldable pub set_dword : List ℕ → ℕ → ℕ → List ℕ
set_dword bytes j d = copy_at bytes (4 * j) (dword_bytes d)

pub length-set_dword : (bytes : List ℕ) (j d : ℕ) → length (set_dword bytes j d) ≡ length bytes
unfolding set_dword
length-set_dword bytes j d = length-copy_at bytes (4 * j) (dword_bytes d)

pub dword_at-set_dword :
    (bytes : List ℕ) (j d : ℕ)
    → 4 * j + 4 ≤ length bytes
    → d < 2 ^ 32
    → dword_at (set_dword bytes j d) j ≡ d
unfolding dword_at set_dword dword_bytes
dword_at-set_dword bytes j d h l = omega (
  arith,
  get_or-copy_at bytes (4 * j) 0 (dword_bytes d) (omega arith) (omega arith),
  get_or-copy_at bytes (4 * j) 1 (dword_bytes d) (omega arith) (omega arith),
  get_or-copy_at bytes (4 * j) 2 (dword_bytes d) (omega arith) (omega arith),
  get_or-copy_at bytes (4 * j) 3 (dword_bytes d) (omega arith) (omega arith),
)

pub dword_at-set_dword_other :
    (bytes : List ℕ) (j i d : ℕ) → i ≢ j → dword_at (set_dword bytes j d) i ≡ dword_at bytes i
unfolding dword_at set_dword dword_bytes
dword_at-set_dword_other bytes j i d h =
    let apart : (k : ℕ)
        → k < 4
        → get_or (copy_at bytes (4 * j) (dword_bytes d)) (4 * i + k) 0
          ≡ get_or bytes (4 * i + k) 0 =
      λ k l. get_or-copy_at_other bytes (4 * j) (4 * i + k) (dword_bytes d) (ground arith) in
    rw (apart 0 (omega arith), apart 1 (omega arith), apart 2 (omega arith), apart 3 (omega arith))
      refl

-- A DWORD at any byte of a buffer, as in a packed struct.
unfoldable pub dword_from : List ℕ → (offset : ℕ) → ℕ
dword_from bytes o =
    get_or bytes (o + 0) 0
    + 256 * get_or bytes (o + 1) 0
    + 65_536 * get_or bytes (o + 2) 0
    + 16_777_216 * get_or bytes (o + 3) 0

unfoldable pub set_dword_from : List ℕ → (offset value : ℕ) → List ℕ
set_dword_from bytes o d = copy_at bytes o (dword_bytes d)

pub length-set_dword_from :
    (bytes : List ℕ) (o d : ℕ) → length (set_dword_from bytes o d) ≡ length bytes
unfolding set_dword_from
length-set_dword_from bytes o d = length-copy_at bytes o (dword_bytes d)

pub dword_from-set_dword_from :
    (bytes : List ℕ) (o d : ℕ)
    → o + 4 ≤ length bytes
    → d < 2 ^ 32
    → dword_from (set_dword_from bytes o d) o ≡ d
unfolding dword_from set_dword_from dword_bytes
dword_from-set_dword_from bytes o d h l = omega (
  arith,
  get_or-copy_at bytes o 0 (dword_bytes d) (omega arith) (omega arith),
  get_or-copy_at bytes o 1 (dword_bytes d) (omega arith) (omega arith),
  get_or-copy_at bytes o 2 (dword_bytes d) (omega arith) (omega arith),
  get_or-copy_at bytes o 3 (dword_bytes d) (omega arith) (omega arith),
)

-- Another DWORD that does not overlap with the one that is set.
pub dword_from-set_dword_from_other :
    (bytes : List ℕ) (o p d : ℕ)
    → (p + 4 ≤ o) ⊎ (o + 4 ≤ p)
    → dword_from (set_dword_from bytes o d) p ≡ dword_from bytes p
unfolding dword_from set_dword_from dword_bytes
dword_from-set_dword_from_other bytes o p d h =
    let apart : (k : ℕ)
        → k < 4
        → get_or (copy_at bytes o (dword_bytes d)) (p + k) 0 ≡ get_or bytes (p + k) 0 =
      λ k l. get_or-copy_at_other bytes o (p + k) (dword_bytes d) (ground arith) in
    rw (apart 0 (omega arith), apart 1 (omega arith), apart 2 (omega arith), apart 3 (omega arith))
      refl
