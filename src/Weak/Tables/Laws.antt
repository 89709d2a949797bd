-- ===== src/Weak/Tables/Laws.antt =====
-- mmtk/src/weak_proc.rs: the packets of a weak table cover its entries, and those of its bins wait
-- for them.
use mmtk_ruby.Base.{
  ℕ, ◌+◌, ◌-◌, ◌≤◌, ◌<◌, ◌^◌, ◌≡◌, refl, sym, ap, Bool, List, [], ◌∷◌, map, true, false, length,
  length-map, ltb, if◌then◌else◌, ok, panic, zero_step, arith,
}
use mmtk_ruby.Build.{Build}
use mmtk_ruby.Stage.{vm_ref_closure}
use mmtk_ruby.Vm.{Address, Core, RubyUpcalls}
use mmtk_ruby.Packet.{process_obj_free_candidates, Packet, update_table_entries, update_table_bins}
use mmtk_ruby.Utils.AfterAll.{new, add_packets, count_up}
use mmtk_ruby.Utils.AfterAll.Safety.{prepared}
use mmtk_ruby.Weak.Ranges.Cover.{
  covers, in_range, chunked_range-partition, chunked_range-cover, chunked_range-overlap,
  chunked_range-gap, chunked_range_zero,
}
use mmtk_ruby.Weak.Tables.{
  ChunkSizes, TableWork, entries_packet, bins_packet, process_weak_table_chunked, fixed_packets,
  process_weak_stuff,
}

-- The ranges of the packets that update entries, or bins.
abbrev pub entry_ranges : List Packet → List (ℕ × ℕ)
entry_ranges [] = []
entry_ranges (update_table_entries p ∷ ps) = (p.begin, p.end) ∷ entry_ranges ps
entry_ranges (_ ∷ ps) = entry_ranges ps

abbrev pub bin_ranges : List Packet → List (ℕ × ℕ)
bin_ranges [] = []
bin_ranges (update_table_bins p ∷ ps) = (p.begin, p.end) ∷ bin_ranges ps
bin_ranges (_ ∷ ps) = bin_ranges ps

entry_ranges-map :
    (table : Address) (k v f : Bool) (name : ℕ) (cs : List (ℕ × ℕ))
    → entry_ranges (map (entries_packet table k v f name) cs) ≡ cs
entry_ranges-map table k v f name [] = refl
entry_ranges-map table k v f name (c ∷ cs) = ap (λ r. c ∷ r) (entry_ranges-map table k v f name cs)

bin_ranges-map :
    (table : Address) (cs : List (ℕ × ℕ)) → bin_ranges (map (bins_packet table) cs) ≡ cs
bin_ranges-map table [] = refl
bin_ranges-map table (c ∷ cs) = ap (λ r. c ∷ r) (bin_ranges-map table cs)

module _ {W : Type 0} (build : Build) (up : RubyUpcalls W) (sizes : ChunkSizes) where
  -- If the chunk size of the entries is positive, that of the bins is no smaller, and nothing
  -- overflows, the call succeeds. The packets that it submits hold each entry from `entries_start`
  -- to `entries_bound` exactly once and no other; those that the `AfterAll` keeps hold each bin at
  -- least once; and the `AfterAll` waits for as many `count_down`s as packets are submitted. There
  -- are no more such packets than entries, and each carries the table, the flags and the `AfterAll`.
  pub table_chunks :
      (name : ℕ) (table : Address) (weak_keys weak_values forward : Bool) (w : W) (i : ℕ)
      → 0 < sizes.entries
      → sizes.entries ≤ sizes.bins
      → (up.st_get_size_info table w).1 + sizes.entries ≤ 2 ^ 64
      → (up.st_get_size_info table w).2 + sizes.bins ≤ 2 ^ 64
      → (t : TableWork) × (process_weak_table_chunked build up sizes name table weak_keys
            weak_values forward w
          ≡ ok t)
        × (covers i (entry_ranges t.entries_packets) ≡ (
            if in_range (up.st_get_size_info table w).0 (up.st_get_size_info table w).1 i
            then 1
            else 0))
        × ((if ltb i (up.st_get_size_info table w).2 then 1 else 0)
            ≤ covers i (bin_ranges t.after_all.packets))
        × (t.after_all ≡ prepared vm_ref_closure (length t.entries_packets) t.after_all.packets)
        × (length t.entries_packets
            ≤ (up.st_get_size_info table w).1 - (up.st_get_size_info table w).0)
        × (t.entries_packets
            ≡ map
                (entries_packet table weak_keys weak_values forward name)
                (entry_ranges t.entries_packets))
  unfolding process_weak_table_chunked new add_packets count_up
  table_chunks name table k v f w i p e h h' =
      let info = up.st_get_size_info table w in
      let (es, eq, cov, len) =
        chunked_range-partition build sizes.entries sizes.entries info.0 info.1 i p refl h in
      let (bs, beq, bcov, _) =
        chunked_range-cover build sizes.entries sizes.bins 0 info.2 i p e h' in
      let eps = map (entries_packet table k v f name) es in
      let bps = map (bins_packet table) bs in
      (
        record { after_all = prepared vm_ref_closure (length eps) bps; entries_packets = eps },
        rw (eq, beq),
        rw (entry_ranges-map table k v f name es) cov,
        rw (bin_ranges-map table bs) (ground (arith, bcov)),
        refl,
        rw (length-map (entries_packet table k v f name) es) len,
        ap (map (entries_packet table k v f name)) (sym (entry_ranges-map table k v f name es)),
      )

  -- The chunks of the bins begin one chunk of entries apart. So, if that is positive and nothing
  -- overflows: if a chunk of bins is longer than a
  -- chunk of entries, as it is by default, and the table has more bins than a chunk of entries, then
  -- the bin at the index of the chunk size of the entries is in two packets at least.
  pub bins_overlap :
      (name : ℕ) (table : Address) (weak_keys weak_values forward : Bool) (w : W)
      → 0 < sizes.entries
      → sizes.entries < sizes.bins
      → sizes.entries < (up.st_get_size_info table w).2
      → (up.st_get_size_info table w).1 + sizes.entries ≤ 2 ^ 64
      → (up.st_get_size_info table w).2 + sizes.bins ≤ 2 ^ 64
      → (t : TableWork) × (process_weak_table_chunked build up sizes name table weak_keys
            weak_values forward w
          ≡ ok t)
        × (2 ≤ covers sizes.entries (bin_ranges t.after_all.packets))
  unfolding process_weak_table_chunked new add_packets count_up
  bins_overlap name table k v f w p e l h h' =
      let info = up.st_get_size_info table w in
      let (es, eq, _, _) =
        chunked_range-partition build sizes.entries sizes.entries info.0 info.1 0 p refl h in
      let (bs, beq, twice) =
        chunked_range-overlap build sizes.entries sizes.bins 0 info.2 sizes.entries p e h'
          (omega arith) (omega arith) l in
      (
        record {
          after_all =
              prepared vm_ref_closure (length (map (entries_packet table k v f name) es))
                (map (bins_packet table) bs);
          entries_packets = map (entries_packet table k v f name) es;
        },
        rw (eq, beq),
        rw (bin_ranges-map table bs) twice,
      )

  -- If nothing overflows, a chunk of bins is shorter than a chunk of entries, and the table has more bins than a chunk
  -- of bins holds, then the bin at the index of the chunk size of the bins is in no packet.
  pub bins_gap :
      (name : ℕ) (table : Address) (weak_keys weak_values forward : Bool) (w : W)
      → sizes.bins < sizes.entries
      → sizes.bins < (up.st_get_size_info table w).2
      → (up.st_get_size_info table w).1 + sizes.entries ≤ 2 ^ 64
      → (up.st_get_size_info table w).2 + sizes.bins ≤ 2 ^ 64
      → (t : TableWork) × (process_weak_table_chunked build up sizes name table weak_keys
            weak_values forward w
          ≡ ok t)
        × (covers sizes.bins (bin_ranges t.after_all.packets) ≡ 0)
  unfolding process_weak_table_chunked new add_packets count_up
  bins_gap name table k v f w e l h h' =
      let info = up.st_get_size_info table w in
      let (es, eq, _, _) =
        chunked_range-partition build sizes.entries sizes.entries info.0 info.1 0 (omega arith) refl
          h in
      let (bs, beq, none) =
        chunked_range-gap build sizes.entries sizes.bins 0 info.2 sizes.bins (omega arith) h'
          (omega arith) (omega arith) in
      (
        record {
          after_all =
              prepared vm_ref_closure (length (map (entries_packet table k v f name) es))
                (map (bins_packet table) bs);
          entries_packets = map (entries_packet table k v f name) es;
        },
        rw (eq, beq),
        rw (bin_ranges-map table bs) none,
      )

  pub no_entries_step :
      (name : ℕ) (table : Address) (weak_keys weak_values forward : Bool) (w : W)
      → sizes.entries ≡ 0
      → process_weak_table_chunked build up sizes name table weak_keys weak_values forward w
        ≡ panic zero_step
  unfolding process_weak_table_chunked
  no_entries_step name table k v f w z =
      rw
        (
          z,
          chunked_range_zero build 0 (up.st_get_size_info table w).0
              (up.st_get_size_info table w).1,
        )
        refl

  -- Two calls that succeed are all that can fail.
  pub process_weak_stuff-tables :
      (core : Core W) (w : W) (strings symbols : TableWork)
      → let forward = core.current_gc_may_move_object w in
        process_weak_table_chunked build up sizes 0
            (up.get_frozen_strings_table w)
            true
            false
            forward
            w
          ≡ ok strings
        → process_weak_table_chunked build up sizes 1
            (up.get_global_symbols_table w)
            false
            true
            forward
            w
          ≡ ok symbols
        → process_weak_stuff build up sizes core w
          ≡ ok (
            record { stage = vm_ref_closure; packets = process_obj_free_candidates ∷ [] }
                ∷ record { stage = vm_ref_closure; packets = fixed_packets build up sizes }
                ∷ record { stage = vm_ref_closure; packets = strings.entries_packets }
                ∷ record { stage = vm_ref_closure; packets = symbols.entries_packets }
                ∷ [],
            strings,
            symbols,
          )
  unfolding process_weak_stuff
  process_weak_stuff-tables core w strings symbols e e' = rw (e, e') refl
