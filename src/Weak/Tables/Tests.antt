-- ===== src/Weak/Tables/Tests.antt =====
-- The packets of a table with entries 2 to 3000 and 4096 bins.
use mmtk_ruby.Base.{◌≤◌, ◌≡◌, true, false, map, length, ok, arith}
use mmtk_ruby.Build.{Build}
use mmtk_ruby.Stage.{vm_ref_closure}
use mmtk_ruby.Vm.Toy.{toy, toy_upcalls}
use mmtk_ruby.Utils.AfterAll.Safety.{prepared}
use mmtk_ruby.Weak.Ranges.Cover.{covers}
use mmtk_ruby.Weak.Tables.{ChunkSizes, TableWork, entries_packet, process_weak_table_chunked}
use mmtk_ruby.Weak.Tables.Laws.{entry_ranges, bin_ranges, table_chunks, bins_overlap, bins_gap}

abbrev release : Build
release = record { debug_assertions = false; extra_assert_feature = false; clear_old_copy = false }

-- The defaults of `RUBY_MMTK_ENTRIES_CHUNK_SIZE` and `RUBY_MMTK_BINS_CHUNK_SIZE`.
abbrev defaults : ChunkSizes
defaults = record { entries = 1024; bins = 4096 }

abbrev small_bins : ChunkSizes
small_bins = record { entries = 1024; bins = 512 }

table_chunks_example :
    (t : TableWork) × (process_weak_table_chunked release toy_upcalls defaults 0 9008 true false
        true toy
      ≡ ok t)
    × (covers 2500 (entry_ranges t.entries_packets) ≡ 1)
    × (1 ≤ covers 2500 (bin_ranges t.after_all.packets))
    × (t.after_all ≡ prepared vm_ref_closure (length t.entries_packets) t.after_all.packets)
    × (length t.entries_packets ≤ 2998)
    × (t.entries_packets
        ≡ map (entries_packet 9008 true false true 0) (entry_ranges t.entries_packets))
table_chunks_example =
    table_chunks release toy_upcalls defaults 0 9008 true false true toy 2500 (omega arith)
      (omega arith) (omega arith) (omega arith)

bins_overlap_example :
    (t : TableWork) × (process_weak_table_chunked release toy_upcalls defaults 0 9008 true false
        true toy
      ≡ ok t)
    × (2 ≤ covers 1024 (bin_ranges t.after_all.packets))
bins_overlap_example =
    bins_overlap release toy_upcalls defaults 0 9008 true false true toy (omega arith) (omega arith)
      (omega arith) (omega arith) (omega arith)

bins_gap_example :
    (t : TableWork) × (process_weak_table_chunked release toy_upcalls small_bins 0 9008 true false
        true toy
      ≡ ok t)
    × (covers 512 (bin_ranges t.after_all.packets) ≡ 0)
bins_gap_example =
    bins_gap release toy_upcalls small_bins 0 9008 true false true toy (omega arith) (omega arith)
      (omega arith) (omega arith)
