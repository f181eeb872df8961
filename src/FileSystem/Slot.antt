-- ===== src/FileSystem/Slot.antt =====
-- kAllocateCacheBufferWithFlush: the entry that it returns can be filled, and no block has changed.
use mintos.Base.{
  ℕ, ◌-◌, ◌<◌, ◌≡◌, ◌≢◌, inl, inr, refl, true, false, Option, none, some, arith, length, set,
  Bool-cases, Option-cases, subst, ap, ◌∙◌, sym, get_or-set_self, length-set,
}
use mintos.Cache.{
  CacheBuffer, CacheTable, zero_buffer, invalid_tag, find_tag, entry_at, set_entry, stamp, oldest,
  cut_down_access_time,
}
use mintos.Cache.Lookup.{lookup, IsBlock}
use mintos.FileSystem.{
  Driver, Area, Store, read_without_cache, write_without_cache, flush_victim,
  allocate_cache_buffer_with_flush,
}
use mintos.FileSystem.Entries.{lookup-at, find_tag-Found, Found}
use mintos.FileSystem.Known.{
  AllKnown, IsKnown, AllKnown-set, set-set, busy-IsBlock, oldest-inside,
  cut_down_access_time-AllKnown,
}
use mintos.FileSystem.Coherence.{
  Alike, Alike-trans, stamp-Alike, cut_down_access_time-Alike, IsInside, IsDisk, shown, shown_by,
  IsCoherent, Alike-IsCoherent, Alike-shown, IsSlot,
}
use mintos.FileSystem.Outlet.{
  marked, marked-Alike, marked_tag, allocate_cache_buffer-busy, allocate_cache_buffer-free,
  get_victim_in_cache_buffer-none, get_victim_in_cache_buffer-some, flag_of, flush_victim-clean,
  flush_victim-failed, flush_victim-written,
}

module _ {D : Type 0} (driver : Driver D) (area : Area) where
  -- The blocks are shown as they were.
  pub record IsUnchanged (s s' : Store D) : Type 0 where
    pub coherent : IsCoherent driver area s'
    pub same_shown :
        (a : ℕ) → IsInside driver area a → shown driver area s' a ≡ shown driver area s a

  -- Entry `i` has room for block `b`.
  pub record IsRoom (s : Store D) (b i : ℕ) (s' : Store D) : Type 0 where
    pub unchanged : IsUnchanged s s'
    pub absent : lookup b s'.table.buffers ≡ none
    pub slot : IsSlot driver area s' i
    pub known : (e : CacheBuffer) → IsKnown e.tag → AllKnown (set s'.table.buffers i e)

  -- The two outcomes of a call that is to make room for block `b`.
  pub data Allocated (s : Store D) (b : ℕ) (r : Option ℕ × Store D) : Type 0 where
    room : (i : ℕ) (s' : Store D) → r ≡ (some i, s') → IsRoom s b i s' → Allocated s b r
    no_room :
        (s' : Store D)
        → r ≡ (none, s')
        → IsUnchanged s s'
        → AllKnown s'.table.buffers
        → Allocated s b r

  pub Alike-IsUnchanged :
      (s : Store D) (t : CacheTable)
      → IsCoherent driver area s
      → Alike s.table t
      → IsUnchanged s (record s { table = t })
  Alike-IsUnchanged s t c a = record {
    coherent = Alike-IsCoherent driver area s t c a;
    same_shown = λ b h. Alike-shown driver area s t b h.0 a;
  }

  module _ (disk : IsDisk driver area) (s : Store D) (b : ℕ) (block : IsBlock b)
      (c : IsCoherent driver area s) (k : AllKnown s.table.buffers)
      (absent : lookup b s.table.buffers ≡ none) where
    abbrev t' : CacheTable
    t' = cut_down_access_time s.table

    cut : Alike s.table t'
    cut = cut_down_access_time-Alike s.table c.distinct

    cut-AllKnown : AllKnown t'.buffers
    cut-AllKnown = cut_down_access_time-AllKnown s.table k

    free-IsRoom :
        (i : ℕ) → Found invalid_tag t'.buffers i → IsRoom s b i (record s { table = marked t' i })
    free-IsRoom i f =
        let alike = Alike-trans s.table t' (marked t' i) cut (marked-Alike t' i cut.distinct f.1) in
        let e1 = record (entry_at t' i) { tag = invalid_tag - 1 } in
        let e2 = record (entry_at (set_entry t' i e1) i) { access_time = t'.access_time } in
        record {
          unchanged = Alike-IsUnchanged s (marked t' i) c alike;
          absent = alike.same b block ∙ absent;
          slot = record {
            inside =
                omega
                  (arith, f.0, length-set t'.buffers i e1, length-set (set t'.buffers i e1) i e2);
            saved = λ h. absurd (omega (arith, h, marked_tag t' i f.0));
          };
          known = λ e kn.
              rw (set-set (set t'.buffers i e1) i e2 e, set-set t'.buffers i e1 e)
                (AllKnown-set t'.buffers i e cut-AllKnown kn);
        }

    -- The victim `i`, when there is no free entry.
    module _ (i : ℕ) (busy : find_tag invalid_tag t'.buffers ≡ none)
        (inside : i < length t'.buffers) where
      abbrev t2 : CacheTable
      t2 = stamp t' i

      abbrev victim : CacheBuffer
      victim = record (entry_at t' i) { access_time = t'.access_time }

      abbrev s2 : Store D
      s2 = record s { table = t2 }

      alike : Alike s.table t2
      alike = Alike-trans s.table t' t2 cut (stamp-Alike t' i cut.distinct)

      victim_at : entry_at t2 i ≡ victim
      victim_at = get_or-set_self t'.buffers i victim zero_buffer inside

      victim_inside : i < length t2.buffers
      victim_inside = omega (arith, inside, length-set t'.buffers i victim)

      victim-IsBlock : IsBlock victim.tag
      victim-IsBlock = busy-IsBlock t'.buffers i cut-AllKnown busy inside

      victim_held : lookup victim.tag t2.buffers ≡ some (victim.changed, victim.buffer)
      victim_held =
          subst (λ (e : CacheBuffer). lookup e.tag t2.buffers ≡ some (e.changed, e.buffer))
            victim_at
            (lookup-at t2.buffers i alike.distinct victim_inside
              (rw (ap (λ (e : CacheBuffer). e.tag) victim_at) victim-IsBlock))

      s2-IsUnchanged : IsUnchanged s s2
      s2-IsUnchanged = Alike-IsUnchanged s t2 c alike

      s2-AllKnown : AllKnown t2.buffers
      s2-AllKnown = AllKnown-set t'.buffers i victim cut-AllKnown (inl victim-IsBlock)

      clean-IsRoom : victim.changed ≡ false → IsRoom s b i s2
      clean-IsRoom clean = record {
        unchanged = s2-IsUnchanged;
        absent = alike.same b block ∙ absent;
        slot = record {
          inside = victim_inside;
          saved = λ h. rw victim_at (
              s2-IsUnchanged.coherent.clean victim.tag victim.buffer victim-IsBlock
                (victim_held ∙ ap (λ z. some (z, victim.buffer)) clean));
        };
        known = λ e kn. AllKnown-set t2.buffers i e s2-AllKnown kn;
      }

      victim-IsInside : IsInside driver area victim.tag
      victim-IsInside =
          s2-IsUnchanged.coherent.inside victim.tag (victim.changed, victim.buffer) victim-IsBlock
            victim_held

      -- After the victim has been written to the disk.
      module _ (d : D) (changed : victim.changed ≡ true)
          (wrote : write_without_cache driver area s.disk victim.tag victim.buffer ≡ some d) where
        abbrev s3 : Store D
        s3 = record s2 { disk = d }

        other_block :
            (a : ℕ)
            → IsInside driver area a
            → a ≢ victim.tag
            → read_without_cache driver area d a ≡ read_without_cache driver area s.disk a
        other_block a h apart =
            disk.others s.disk d victim.tag a victim.buffer victim-IsInside h apart wrote

        flushed-shown :
            (a : ℕ) → IsInside driver area a → shown driver area s3 a ≡ shown driver area s2 a
        flushed-shown a h = elim (Option-cases (lookup a t2.buffers)) [
          | inr (e, held) ↦
              ap (λ o. shown_by driver area o d a) held
              ∙ ap (λ o. shown_by driver area o s.disk a) (sym held)
          | inl gone ↦
              let apart : a ≢ victim.tag = λ same.
                let contra = sym gone ∙ ap (λ x. lookup x t2.buffers) same ∙ victim_held in
                ground (arith, contra) in
              ap (λ o. shown_by driver area o d a) gone
              ∙ other_block a h apart
              ∙ ap (λ o. shown_by driver area o s.disk a) (sym gone)
        ]

        flushed-IsCoherent : IsCoherent driver area s3
        flushed-IsCoherent = record {
          distinct = s2-IsUnchanged.coherent.distinct;
          inside = s2-IsUnchanged.coherent.inside;
          clean = λ a bytes h held.
              let apart : a ≢ victim.tag = λ same.
                let contra : some (false, bytes) ≡ some (victim.changed, victim.buffer) =
                  sym held ∙ ap (λ x. lookup x t2.buffers) same ∙ victim_held in
                let flag = ap (flag_of false) contra in ground (arith, flag, changed) in
              other_block a (s2-IsUnchanged.coherent.inside a (false, bytes) h held) apart
              ∙ s2-IsUnchanged.coherent.clean a bytes h held;
        }

        flushed-IsRoom : IsRoom s b i s3
        flushed-IsRoom = record {
          unchanged = record {
            coherent = flushed-IsCoherent;
            same_shown = λ a h. flushed-shown a h ∙ s2-IsUnchanged.same_shown a h;
          };
          absent = alike.same b block ∙ absent;
          slot = record {
            inside = victim_inside;
            saved = λ h.
                rw victim_at (disk.written s.disk d victim.tag victim.buffer victim-IsInside wrote);
          };
          known = λ e kn. AllKnown-set t2.buffers i e s2-AllKnown kn;
        }

      flush_victim-Allocated : Allocated s b (flush_victim driver area s2 i)
      flush_victim-Allocated =
          let flag = ap (λ (e : CacheBuffer). e.changed) victim_at in
          let written =
            ap (λ (e : CacheBuffer). write_without_cache driver area s.disk e.tag e.buffer)
              victim_at in
          elim (Bool-cases victim.changed) [
            | inr clean ↦
                room i s2 (flush_victim-clean driver area s2 i (flag ∙ clean)) (clean-IsRoom clean)
            | inl changed ↦
                elim (Option-cases
                  (write_without_cache driver area s.disk victim.tag victim.buffer)) [
                    | inl failed ↦
                        no_room s2
                          (flush_victim-failed driver area s2 i (flag ∙ changed) (written ∙ failed))
                          s2-IsUnchanged s2-AllKnown
                    | inr (d, wrote) ↦
                        room i (record s2 { disk = d })
                          (flush_victim-written driver area s2 i d (flag ∙ changed)
                            (written ∙ wrote))
                          (flushed-IsRoom d changed wrote)
                  ]
          ]

    -- The call makes room for the block, or fails, and shows every block as before.
    pub allocate_cache_buffer_with_flush-Allocated :
        Allocated s b (allocate_cache_buffer_with_flush driver area s)
    unfolding allocate_cache_buffer_with_flush
    allocate_cache_buffer_with_flush-Allocated =
        elim (Option-cases (find_tag invalid_tag t'.buffers)) [
          | inr (i, e) ↦
              room i (record s { table = marked t' i })
                (rw
                  (
                    allocate_cache_buffer_with_flush,
                    allocate_cache_buffer-free s.table i e,
                    allocate_cache_buffer-free s.table i e,
                  )
                  refl)
                (free-IsRoom i (find_tag-Found invalid_tag t'.buffers i e))
          | inl busy ↦ elim (Option-cases (oldest 0 0xffff_ffff none t'.buffers)) [
            | inl nothing ↦
                no_room (record s { table = t' })
                  (rw
                    (
                      allocate_cache_buffer_with_flush,
                      allocate_cache_buffer-busy s.table busy,
                      allocate_cache_buffer-busy s.table busy,
                      get_victim_in_cache_buffer-none t' nothing,
                      allocate_cache_buffer-busy s.table busy,
                      get_victim_in_cache_buffer-none t' nothing,
                    )
                    refl)
                  (Alike-IsUnchanged s t' c cut) cut-AllKnown
            | inr (i, e) ↦
                let inside =
                  oldest-inside t'.buffers 0 0xffff_ffff none i (λ j h. absurd (ground (arith, h)))
                    e in
                rw
                  (
                    allocate_cache_buffer_with_flush,
                    allocate_cache_buffer-busy s.table busy,
                    allocate_cache_buffer-busy s.table busy,
                    get_victim_in_cache_buffer-some t' i e,
                    allocate_cache_buffer-busy s.table busy,
                    get_victim_in_cache_buffer-some t' i e,
                  )
                  (flush_victim-Allocated i busy (omega (arith, inside)))
          ]
        ]
