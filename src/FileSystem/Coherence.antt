-- ===== src/FileSystem/Coherence.antt =====
-- The cache in front of a disk: what a block shows, and how filling an entry changes it.
use mintos.Base.{
  ℕ, ◌+◌, ◌*◌, ◌^◌, ◌<◌, ◌≡◌, ◌≢◌, ◌⊎◌, inl, inr, refl, Bool, false, Option, none, some, List, [],
  arith, ◌==◌, length, set, Bool-cases, subst, ==_iff, ap, ◌∙◌, sym,
}
use mintos.Cache.{CacheBuffer, CacheTable, entry_at, stamp, cut_down_access_time}
use mintos.Cache.Lookup.{lookup, IsBlock, DistinctTags, cut_down_access_time-lookup}
use mintos.FileSystem.{Driver, Area, Store, read_without_cache, write_without_cache, fill_entry}
use mintos.FileSystem.Entries.{
  lookup-set_same, lookup-at, lookup-set_new, lookup-set_other, lookup-set_gone, DistinctTags-set,
  DistinctTags-set_same,
}

-- Another table with the same blocks.
pub record Alike (t t' : CacheTable) : Type 0 where
  pub distinct : DistinctTags t'.buffers
  pub same : (tag : ℕ) → IsBlock tag → lookup tag t'.buffers ≡ lookup tag t.buffers

pub Alike-trans : (t t' t'' : CacheTable) → Alike t t' → Alike t' t'' → Alike t t''
Alike-trans t t' t'' a b = record {
  distinct = b.distinct;
  same = λ tag h. b.same tag h ∙ a.same tag h;
}

pub stamp-Alike : (t : CacheTable) (i : ℕ) → DistinctTags t.buffers → Alike t (stamp t i)
stamp-Alike t i d =
    let e = record (entry_at t i) { access_time = t.access_time } in
    record {
      distinct = DistinctTags-set_same t.buffers i e d refl refl refl;
      same = λ tag h. lookup-set_same tag t.buffers i e refl refl refl;
    }

pub cut_down_access_time-Alike :
    (t : CacheTable) → DistinctTags t.buffers → Alike t (cut_down_access_time t)
cut_down_access_time-Alike t d = record {
  distinct = (cut_down_access_time-lookup t 0 d (omega arith)).1;
  same = λ tag h. (cut_down_access_time-lookup t tag d h).0;
}

abbrev entry_or {ℓ} : {A : Type ℓ} → A → Option A → A
entry_or a none = a
entry_or a (some b) = b

module _ {D : Type 0} (driver : Driver D) (area : Area) where
  -- A block of the area: its address is a DWORD.
  abbrev pub IsInside : ℕ → Type 0
  IsInside b = (b < 0xffff_fffe) × (b * area.sectors + area.start_address < 2 ^ 32)

  -- What the driver promises of the blocks of the area: a block that was written is read back, and
  -- no other block has changed.
  pub record IsDisk : Type 0 where
    pub written :
        (d d' : D) (b : ℕ) (bytes : List ℕ)
        → IsInside b
        → write_without_cache driver area d b bytes ≡ some d'
        → read_without_cache driver area d' b ≡ some bytes
    pub others :
        (d d' : D) (b c : ℕ) (bytes : List ℕ)
        → IsInside b
        → IsInside c
        → c ≢ b
        → write_without_cache driver area d b bytes ≡ some d'
        → read_without_cache driver area d' c ≡ read_without_cache driver area d c

  -- What a block holds: the cache's bytes where it has the block, and else the disk's.
  abbrev pub shown_by : Option (Bool × List ℕ) → D → ℕ → Option (List ℕ)
  shown_by none d b = read_without_cache driver area d b
  shown_by (some e) d b = some e.1

  abbrev pub shown : Store D → ℕ → Option (List ℕ)
  shown s b = shown_by (lookup b s.table.buffers) s.disk b

  -- No block stands in two entries, all blocks of the table are of the area, and an entry that is
  -- not changed holds what the disk does.
  pub record IsCoherent (s : Store D) : Type 0 where
    pub distinct : DistinctTags s.table.buffers
    pub inside :
        (b : ℕ) (e : Bool × List ℕ) → IsBlock b → lookup b s.table.buffers ≡ some e → IsInside b
    pub clean :
        (b : ℕ) (bytes : List ℕ)
        → IsBlock b
        → lookup b s.table.buffers ≡ some (false, bytes)
        → read_without_cache driver area s.disk b ≡ some bytes

  pub Alike-IsCoherent :
      (s : Store D) (t : CacheTable)
      → IsCoherent s
      → Alike s.table t
      → IsCoherent (record s { table = t })
  Alike-IsCoherent s t c a = record {
    distinct = a.distinct;
    inside = λ b e h f. c.inside b e h (sym (a.same b h) ∙ f);
    clean = λ b bytes h e. c.clean b bytes h (sym (a.same b h) ∙ e);
  }

  pub Alike-shown :
      (s : Store D) (t : CacheTable) (b : ℕ)
      → IsBlock b
      → Alike s.table t
      → shown (record s { table = t }) b ≡ shown s b
  Alike-shown s t b h a = ap (λ o. shown_by o s.disk b) (a.same b h)

  -- An entry that can be filled: the disk holds its block.
  pub record IsSlot (s : Store D) (i : ℕ) : Type 0 where
    pub inside : i < length s.table.buffers
    pub saved :
        IsBlock (entry_at s.table i).tag
        → read_without_cache driver area s.disk (entry_at s.table i).tag
          ≡ some (entry_at s.table i).buffer

  module _ (s : Store D) (i b : ℕ) (bytes : List ℕ) (changed : Bool) (c : IsCoherent s)
      (slot : IsSlot s i) (block : IsInside b) (no_entry : lookup b s.table.buffers ≡ none) where
    abbrev new_entry : CacheBuffer
    new_entry = record (entry_at s.table i) { tag = b; changed = changed; buffer = bytes }

    filled_new : lookup b (set s.table.buffers i new_entry) ≡ some (changed, bytes)
    filled_new = lookup-set_new b s.table.buffers i new_entry refl slot.inside no_entry

    -- Of another block the table holds what it did, or it holds it no more and the disk does.
    filled_other :
        (a : ℕ)
        → IsBlock a
        → a ≢ b
        → (lookup a (set s.table.buffers i new_entry) ≡ lookup a s.table.buffers)
          ⊎ ((lookup a (set s.table.buffers i new_entry) ≡ none)
              × (shown s a ≡ read_without_cache driver area s.disk a))
    filled_other a h ne =
        let old = entry_at s.table i in
        elim (Bool-cases (old.tag == a)) [
          | inr other ↦
              inl (lookup-set_other a s.table.buffers i new_entry (λ e. ne (sym e)) (ground arith))
          | inl at ↦
              let same : old.tag ≡ a = (==_iff old.tag a).0 at in
              let is_block : IsBlock old.tag = omega (arith, same, h) in
              inr (
                subst
                  (λ x.
                    (lookup x (set s.table.buffers i new_entry) ≡ none)
                    × (shown s x ≡ read_without_cache driver area s.disk x))
                  same
                  (
                    lookup-set_gone s.table.buffers i new_entry c.distinct slot.inside is_block
                        (λ e. ne (sym same ∙ sym e)),
                    ap (λ o. shown_by o s.disk old.tag)
                          (lookup-at s.table.buffers i c.distinct slot.inside is_block)
                        ∙ sym (slot.saved is_block),
                  ))
        ]

    -- The filled entry shows the block with its bytes, and the other blocks are shown as before.
    pub fill_entry-shown : shown (fill_entry driver area s i b bytes changed) b ≡ some bytes
    unfolding fill_entry
    fill_entry-shown = ap (λ o. shown_by o s.disk b) filled_new

    pub fill_entry-shown_other :
        (a : ℕ)
        → IsBlock a
        → a ≢ b
        → shown (fill_entry driver area s i b bytes changed) a ≡ shown s a
    unfolding fill_entry
    fill_entry-shown_other a h ne = elim (filled_other a h ne) [
      | inl same ↦ ap (λ o. shown_by o s.disk a) same
      | inr gone ↦ ap (λ o. shown_by o s.disk a) gone.0 ∙ sym gone.1
    ]

    pub fill_entry-IsCoherent :
        (changed ≡ false → read_without_cache driver area s.disk b ≡ some bytes)
        → IsCoherent (fill_entry driver area s i b bytes changed)
    unfolding fill_entry
    fill_entry-IsCoherent on_disk = record {
      distinct = DistinctTags-set s.table.buffers i new_entry c.distinct (λ h. no_entry);
      inside = λ a e h f. elim (Bool-cases (a == b)) [
        | inl at ↦ rw ((==_iff a b).0 at) block
        | inr other ↦ elim (filled_other a h (ground arith)) [
          | inl same ↦ c.inside a e h (sym same ∙ f)
          | inr gone ↦
              let contra : none ≡ some e = sym gone.0 ∙ f in absurd (ground (arith, contra))
        ]
      ];
      clean = λ a old h f. elim (Bool-cases (a == b)) [
        | inl at ↦
            let same : a ≡ b = (==_iff a b).0 at in
            let e : some (changed, bytes) ≡ some (false, old) = sym filled_new ∙ (rw same at f) in
            let p = ap (entry_or (false, [])) e in
            rw same
              (on_disk (ap (λ (q : Bool × List ℕ). q.0) p) ∙ ap (λ (q : Bool × List ℕ). some q.1) p)
        | inr other ↦ elim (filled_other a h (ground arith)) [
          | inl same ↦ c.clean a old h (sym same ∙ f)
          | inr gone ↦
              let contra : none ≡ some (false, old) = sym gone.0 ∙ f in
              absurd (ground (arith, contra))
        ]
      ];
    }
