-- ===== src/Volume/View.antt =====
-- The laws of blocks: what a block shows, and what reads and writes change of it.
use mintos.Base.{ℕ, ◌≡◌, ◌≢◌, ◌⊎◌, ◌∙◌, Bool, true, false, Option, none, some, List}
use mintos.Volume.{AreaKind, BlockOps}

-- What the blocks of the two areas show in a state that is in order.
pub record BlockView (S : Type 0) : Type 1 where
  pub IsGood : S → Type 0
  pub IsInside : AreaKind → ℕ → Type 0
  pub shown : S → AreaKind → ℕ → Option (List ℕ)

module _ {S : Type 0} (view : BlockView S) where
  open view use {IsGood, IsInside, shown}

  -- Every block of both areas shows the same in two states.
  abbrev pub SameBlocks : S → S → Type 0
  SameBlocks s s' = (k : AreaKind) (b : ℕ) → IsInside k b → shown s' k b ≡ shown s k b

  pub SameBlocks-trans : (s t u : S) → SameBlocks s t → SameBlocks t u → SameBlocks s u
  SameBlocks-trans s t u p q k b h = q k b h ∙ p k b h

  -- A read returns what the block shows or fails, and no block changes.
  pub record IsReadOf (s : S) (k : AreaKind) (b : ℕ) (r : Option (List ℕ) × S) : Type 0 where
    pub good : IsGood r.1
    pub result : (r.0 ≡ none) ⊎ (r.0 ≡ shown s k b)
    pub same : SameBlocks s r.1

  -- A write that succeeds changes one block; a write that fails changes none.
  pub record IsWriteOf (s : S) (k : AreaKind) (b : ℕ) (bytes : List ℕ) (r : Bool × S) : Type 0 where
    pub good : IsGood r.1
    pub result :
        ((r.0 ≡ true) × (shown r.1 k b ≡ some bytes))
        ⊎ ((r.0 ≡ false) × (shown r.1 k b ≡ shown s k b))
    pub same_others : (c : ℕ) → IsInside k c → c ≢ b → shown r.1 k c ≡ shown s k c
    pub same_area : (l : AreaKind) (c : ℕ) → l ≢ k → IsInside l c → shown r.1 l c ≡ shown s l c

  pub record BlockLaws (ops : BlockOps S) : Type 0 where
    pub reads :
        (s : S) (k : AreaKind) (b : ℕ) → IsGood s → IsInside k b → IsReadOf s k b (ops.read s k b)
    pub writes :
        (s : S) (k : AreaKind) (b : ℕ) (bytes : List ℕ)
        → IsGood s
        → IsInside k b
        → IsWriteOf s k b bytes (ops.write s k b bytes)
