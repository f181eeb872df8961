-- ===== src/FileSystem/Outcome.antt =====
-- What a store shows after a hit, after a miss and after its entry was filled.
use mintos.Base.{
  ℕ, ◌<◌, ◌≡◌, ◌≢◌, inl, inr, refl, Bool, true, false, some, List, arith, ◌==◌, length, get_or, set,
  Bool-cases, subst, ap, ◌∙◌, ==_iff, sym, get_or-set_self, length-set,
}
use mintos.Cache.{
  CacheBuffer, CacheTable, zero_buffer, entry_at, set_entry, stamp, cut_down_access_time,
}
use mintos.Cache.Lookup.{lookup, IsBlock, DistinctTags}
use mintos.FileSystem.{Driver, Area, Store, read_without_cache, fill_entry}
use mintos.FileSystem.Entries.{lookup-at, lookup-set_other, DistinctTags-set_bytes, Found}
use mintos.FileSystem.Known.{AllKnown, AllKnown-set, cut_down_access_time-AllKnown}
use mintos.FileSystem.Coherence.{
  Alike, Alike-trans, stamp-Alike, cut_down_access_time-Alike, IsInside, IsDisk, shown, shown_by,
  IsCoherent, Alike-IsCoherent, fill_entry-shown, fill_entry-shown_other, fill_entry-IsCoherent,
}
use mintos.FileSystem.Outlet.{flag_of}
use mintos.FileSystem.Slot.{IsUnchanged, IsRoom, Alike-IsUnchanged}

module _ {D : Type 0} (driver : Driver D) (area : Area) where
  -- A store that can be used: its cache is coherent, and each entry is free or holds a block.
  pub record IsStore (s : Store D) : Type 0 where
    pub coherent : IsCoherent driver area s
    pub known : AllKnown s.table.buffers

  module _ (disk : IsDisk driver area) (s : Store D) (b : ℕ) (v : IsStore s)
      (block : IsInside driver area b) where
    abbrev t' : CacheTable
    t' = cut_down_access_time s.table

    pub cut : Alike s.table t'
    cut = cut_down_access_time-Alike s.table v.coherent.distinct

    pub cut-AllKnown : AllKnown t'.buffers
    cut-AllKnown = cut_down_access_time-AllKnown s.table v.known

    abbrev s1 : Store D
    s1 = record s { table = t' }

    pub missed-IsUnchanged : IsUnchanged driver area s s1
    missed-IsUnchanged = Alike-IsUnchanged driver area s t' v.coherent cut

    -- The filled entry after a miss.
    module _ (i : ℕ) (s' : Store D) (bytes : List ℕ) (changed : Bool)
        (r : IsRoom driver area s1 b i s')
        (on_disk : changed ≡ false → read_without_cache driver area s'.disk b ≡ some bytes) where
      pub filled-IsStore : IsStore (fill_entry driver area s' i b bytes changed)
      filled-IsStore = record {
        coherent =
            fill_entry-IsCoherent driver area s' i b bytes changed r.unchanged.coherent r.slot block
              r.absent on_disk;
        known =
            unfold fill_entry in
            r.known (record (entry_at s'.table i) { tag = b; changed = changed; buffer = bytes })
              (inl block.0);
      }

      pub filled-shown :
          shown driver area (fill_entry driver area s' i b bytes changed) b ≡ some bytes
      filled-shown =
          fill_entry-shown driver area s' i b bytes changed r.unchanged.coherent r.slot block
            r.absent

      pub filled_others :
          (a : ℕ)
          → IsInside driver area a
          → a ≢ b
          → shown driver area (fill_entry driver area s' i b bytes changed) a
            ≡ shown driver area s a
      filled_others a h ne =
          fill_entry-shown_other driver area s' i b bytes changed r.unchanged.coherent r.slot block
            r.absent a h.0 ne
          ∙ r.unchanged.same_shown a h
          ∙ missed-IsUnchanged.same_shown a h

    -- After a hit at entry `i`.
    module _ (i : ℕ) (f : Found b t'.buffers i) where
      abbrev t2 : CacheTable
      t2 = stamp t' i

      abbrev hit : CacheBuffer
      hit = record (entry_at t' i) { access_time = t'.access_time }

      pub hit-Alike : Alike s.table t2
      hit-Alike = Alike-trans s.table t' t2 cut (stamp-Alike t' i cut.distinct)

      pub hit_at : entry_at t2 i ≡ hit
      hit_at = get_or-set_self t'.buffers i hit zero_buffer f.0

      pub hit-IsStore : IsStore (record s { table = t2 })
      hit-IsStore = record {
        coherent = Alike-IsCoherent driver area s t2 v.coherent hit-Alike;
        known = AllKnown-set t'.buffers i hit cut-AllKnown (inl (omega (arith, f.1, block.0)));
      }

      pub hit-shown : shown driver area s b ≡ some hit.buffer
      hit-shown = ap (λ o. shown_by driver area o s.disk b) (sym (cut.same b block.0) ∙ f.2)

      -- The new bytes of the block of the entry.
      module _ (bytes : List ℕ) where
        abbrev over : CacheBuffer
        over = record (entry_at t2 i) { tag = (entry_at t2 i).tag; changed = true; buffer = bytes }

        over_tag : (entry_at t2 i).tag ≡ b
        over_tag = ap (λ (e : CacheBuffer). e.tag) hit_at ∙ f.1

        hit_inside : i < length t2.buffers
        hit_inside = omega (arith, f.0, length-set t'.buffers i hit)

        over_at : get_or (set t2.buffers i over) i zero_buffer ≡ over
        over_at = get_or-set_self t2.buffers i over zero_buffer hit_inside

        over_distinct : DistinctTags (set t2.buffers i over)
        over_distinct = DistinctTags-set_bytes t2.buffers i over hit-Alike.distinct hit_inside refl

        pub over_new : lookup b (set t2.buffers i over) ≡ some (true, bytes)
        over_new =
            subst (λ a. lookup a (set t2.buffers i over) ≡ some (true, bytes)) over_tag
              (subst
                (λ (e : CacheBuffer).
                  lookup e.tag (set t2.buffers i over) ≡ some (e.changed, e.buffer))
                over_at
                (lookup-at (set t2.buffers i over) i over_distinct
                  (omega (arith, hit_inside, length-set t2.buffers i over))
                  (omega (arith, ap (λ (e : CacheBuffer). e.tag) over_at, over_tag, block.0))))

        pub over_other :
            (a : ℕ) → IsBlock a → a ≢ b → lookup a (set t2.buffers i over) ≡ lookup a t2.buffers
        over_other a h ne =
            lookup-set_other a t2.buffers i over (λ e. ne (sym e ∙ over_tag))
              (λ e. ne (sym e ∙ over_tag))

        pub over-IsStore : IsStore (record s { table = set_entry t2 i over })
        over-IsStore = record {
          coherent = record {
            distinct = over_distinct;
            inside = λ a e h held. elim (Bool-cases (a == b)) [
              | inl at ↦ rw ((==_iff a b).0 at) block
              | inr other ↦
                  hit-IsStore.coherent.inside a e h (sym (over_other a h (ground arith)) ∙ held)
            ];
            clean = λ a old h held. elim (Bool-cases (a == b)) [
              | inl at ↦
                  let same : a ≡ b = (==_iff a b).0 at in
                  let contra : some (true, bytes) ≡ some (false, old) =
                    sym over_new ∙ (rw same at held) in
                  absurd (ground (arith, ap (flag_of false) contra))
              | inr other ↦
                  hit-IsStore.coherent.clean a old h (sym (over_other a h (ground arith)) ∙ held)
            ];
          };
          known =
              AllKnown-set t2.buffers i over hit-IsStore.known
                (inl (omega (arith, over_tag, block.0)));
        }
