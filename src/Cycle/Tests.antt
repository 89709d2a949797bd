-- ===== src/Cycle/Tests.antt =====
-- Small collections.
use mathlib.Core.List.{Permᴰ}
use mathlib.Core.List.Permᴰ as Perm
use mmtk_ruby.Base.{
  ◌∙◌, ap, List, concat, All, ℕ, ◌≤◌, ◌≡◌, refl, [], ◌∷◌, map, some, ok, unlocked, true, false,
  arith,
}
use mmtk_ruby.Base.HashSet.{contains}
use mmtk_ruby.Vm.{ObjectReference, RubyUpcalls, visit, finish}
use mmtk_ruby.Vm.Toy.{Toy, toy, toy_core, toy_upcalls, toy_pin_bits, two_children-SamePins}
use mmtk_ruby.Givtbl.{MovedGivtbl}
use mmtk_ruby.Build.{Build, add_usize}
use mmtk_ruby.Stage.{vm_ref_closure}
use mmtk_ruby.Packet.{
  RootScanner, scan_vm_roots, scan_end_proc_roots, scan_global_tbl_roots, scan_yjit_roots,
  scan_global_symbols_roots, scan_finalizer_tbl_roots, scan_obj_to_id_tbl_roots, scan_misc_roots,
  scan_final_jobs_roots, update_generic_iv_tbl, UpdateTableEntriesParallel, update_table_entries,
}
use mmtk_ruby.Utils.AfterAll.{new, add_packets, count_up}
use mmtk_ruby.Weak.Ranges.{chunked_range, chunk_at, chunks_from}
use mmtk_ruby.Weak.Ranges.Cover.{covers}
use mmtk_ruby.Weak.Tables.{ChunkSizes, TableWork, bins_packet, process_weak_table_chunked}
use mmtk_ruby.Weak.Tables.Laws.{bin_ranges}
use mmtk_ruby.Weak.Parallel.{run_entries}
use mmtk_ruby.Abi.Tls.{GcThreadTls, for_worker}
use mmtk_ruby.Weak.Processors as Processors
use mmtk_ruby.Weak.Processors.Laws.{moved}
use mmtk_ruby.Object.Copy.{CopyState}
use mmtk_ruby.Object.Copy.Tests.{checked, before, by_hundred, two_copied, flags_16}
use mmtk_ruby.Cycle.Tables.{updates, table_stage_complete, empty_table-keeps_bins}
use mmtk_ruby.Ppp.{PppRegistry}
use mmtk_ruby.Ppp.Packets.Tests.{debug, tls, tls-IsIdle, registry}
use mmtk_ruby.Cycle.Pinning.{IsReady, Restored, collect-restores}
use mmtk_ruby.Cycle.Repeated.{Gc, collect_all, collect_all-IsReady}
use mmtk_ruby.Scanning.{is_mmtk_object_safe}
use mmtk_ruby.Scanning.Roots.{RootLocals}
use mmtk_ruby.Scanning.Roots.Laws.{VisitsObjects, root_set}
use mmtk_ruby.Scanning.VmRoots.{scan_vm_specific_roots}
use mmtk_ruby.Scanning.VmRoots.Laws.{root_submissions}
use mmtk_ruby.Cycle.Roots.Jobs.{run_jobs, IsBatch}
use mmtk_ruby.Cycle.Roots.{root_jobs, expected_roots, root_scan_complete}
use mmtk_ruby.Cycle.Moves.{copy_each, due, due-cons, due-nil, copies-reported}

abbrev idle_tls : GcThreadTls (Unit {0}) Toy
idle_tls = for_worker 7000

abbrev copied : CopyState Toy
copied = two_copied.1

two_each :
    copy_each checked toy_upcalls by_hundred 0 0 (16 ∷ 72 ∷ []) before
    ≡ ok (1608 ∷ 7208 ∷ [], copied)
unfolding copy_each
two_each = rw (two_copied.2, two_copied.3) refl

-- Only object 16 had a table.
two_due :
    due checked toy_upcalls by_hundred 0 0 (16 ∷ 72 ∷ []) before
    ≡ (1608, record { old_objref = 16; gen_ivtbl = 5000 }) ∷ []
two_due =
    due-cons checked toy_upcalls by_hundred 0 0 16 (72 ∷ []) before two_copied.0 1608 two_copied.2
    ∙ rw flags_16 (
        ap (λ r. (1608, record { old_objref = 16; gen_ivtbl = 5000 }) ∷ r)
          (due-cons checked toy_upcalls by_hundred 0 0 72 [] two_copied.0 two_copied.1 7208
              two_copied.3
            ∙ rw two_copied.4 (due-nil checked toy_upcalls by_hundred 0 0 two_copied.1)))

copies-reported_example :
    (entries : MovedGivtbl) × Permᴰ entries
      (due checked toy_upcalls by_hundred 0 0 (16 ∷ 72 ∷ []) before)
    × (Processors.do_work checked toy_core toy_upcalls update_generic_iv_tbl
          (λ m. m)
          (some idle_tls)
          copied.moved_givtbl
          toy
        ≡ ok (unlocked [], idle_tls, moved toy_upcalls entries toy))
unfolding for_worker contains
copies-reported_example =
    copies-reported checked toy_upcalls by_hundred 0 0 toy_core (16 ∷ 72 ∷ []) (1608 ∷ 7208 ∷ [])
      before copied (λ m. m) idle_tls toy refl two_each (refl, (refl, tt)) Perm.refl
      (record { is_worker = refl; no_closure = refl }) tt

abbrev release : Build
release = record { debug_assertions = false; extra_assert_feature = false; clear_old_copy = false }

abbrev defaults : ChunkSizes
defaults = record { entries = 1024; bins = 4096 }

abbrev chunk : ℕ → ℕ → UpdateTableEntriesParallel
chunk begin end = record {
  table = 9008;
  begin = begin;
  end = end;
  weak_keys = true;
  weak_values = false;
  forward = true;
  after_all = 0;
}

-- The entries 2 to 3000 in three packets, and the bins.
abbrev table_work : TableWork
table_work = record {
  after_all = record {
    counter = 3;
    stage = vm_ref_closure;
    packets =
        bins_packet 9008 (0, 4096)
        ∷ bins_packet 9008 (1024, 4096)
        ∷ bins_packet 9008 (2048, 4096)
        ∷ bins_packet 9008 (3072, 4096)
        ∷ [];
  };
  entries_packets =
      map update_table_entries (chunk 2 1026 ∷ chunk 1026 2050 ∷ chunk 2050 3000 ∷ []);
}

three_packets :
    process_weak_table_chunked release toy_upcalls defaults 0 9008 true false true toy
    ≡ ok table_work
unfolding process_weak_table_chunked chunked_range chunk_at chunks_from new add_packets count_up
    add_usize
three_packets = refl

table_stage_complete_example :
    (run_entries toy_upcalls
        (chunk 1026 2050 ∷ chunk 2 1026 ∷ chunk 2050 3000 ∷ [])
        table_work.after_all
        toy
      ≡ (
        record { counter = 0; stage = vm_ref_closure; packets = [] },
        table_work.after_all.packets,
        toy,
      ))
    × (updates 2500
          (map update_table_entries (chunk 1026 2050 ∷ chunk 2 1026 ∷ chunk 2050 3000 ∷ []))
        ≡ 1)
    × (1 ≤ covers 2500 (bin_ranges table_work.after_all.packets))
table_stage_complete_example =
    table_stage_complete release toy_upcalls defaults 0 9008 true false true toy toy 2500 table_work
      (chunk 1026 2050) (chunk 2 1026 ∷ chunk 2050 3000 ∷ []) (omega arith) (omega arith)
      (omega arith) (omega arith) three_packets (Permᴰ.swap refl refl)

-- A table of the small CRuby without entries, and with 16 bins.
abbrev no_entries : RubyUpcalls Toy
no_entries = record toy_upcalls { st_get_size_info = λ t w. (5, 5, 16) }

empty_table-keeps_bins_example :
    (t : TableWork) × (process_weak_table_chunked release no_entries defaults 0 9008 true false true
        toy
      ≡ ok t)
    × (t.entries_packets ≡ [])
    × (t.after_all.counter ≡ 0)
    × (1 ≤ covers 15 (bin_ranges t.after_all.packets))
empty_table-keeps_bins_example =
    empty_table-keeps_bins release no_entries defaults 0 9008 true false true toy 15 (omega arith)
      (omega arith) (omega arith) (omega arith) (omega arith)

-- A moving collection of the small heap.
collect-restores_example :
    Restored debug toy_core toy_upcalls (λ w. record w { moving = true }) tls registry toy
collect-restores_example =
    collect-restores debug toy_core toy_upcalls toy_pin_bits two_children-SamePins
      (λ w. record w { moving = true }) tls registry toy (λ x y. refl) (λ x. refl) tls-IsIdle
      (record { ppps_free = refl; children_free = refl; no_children = refl })

-- A moving collection, and then one that is not.
abbrev moving_gc : Gc Toy
moving_gc = record {
  new_ppps = 56 ∷ [];
  start = λ w. record w { moving = true };
  trace = λ w. record w { moving = true };
  moving = true;
}

abbrev still_gc : Gc Toy
still_gc = record {
  new_ppps = [];
  start = λ w. record w { moving = false };
  trace = λ w. record w { moving = false };
  moving = false;
}

collect_all-IsReady_example :
    (r' : PppRegistry) × (w' : Toy) × (collect_all debug toy_core toy_upcalls
        (moving_gc ∷ still_gc ∷ [])
        tls
        registry
        toy
      ≡ ok (r', w'))
    × IsReady r'
collect_all-IsReady_example =
    collect_all-IsReady debug toy_core toy_upcalls toy_pin_bits two_children-SamePins
      (moving_gc ∷ still_gc ∷ []) tls registry toy
      (
        record { starts = λ w. refl; traces = λ w. refl; pins = λ w x. refl },
        (record { starts = λ w. refl; traces = λ w. refl; pins = λ w x. refl }, tt),
      )
      tls-IsIdle (record { ppps_free = refl; children_free = refl; no_children = refl })

-- A CRuby that visits 64 behind every object.
abbrev tame_upcalls : RubyUpcalls Toy
tame_upcalls = record toy_upcalls {
  scan_object_ruby_style = λ o w. visit w 64 true (λ w' x. finish w');
}

tame_scanners :
    (scanner : RootScanner) (x : Toy)
    → VisitsObjects checked toy_core (root_set tame_upcalls scanner x)
unfolding is_mmtk_object_safe
tame_scanners scan_vm_roots x = (refl, (refl, tt))
tame_scanners scan_end_proc_roots x = tt
tame_scanners scan_global_tbl_roots x = tt
tame_scanners scan_yjit_roots x = tt
tame_scanners scan_global_symbols_roots x = tt
tame_scanners scan_finalizer_tbl_roots x = tt
tame_scanners scan_obj_to_id_tbl_roots x = tt
tame_scanners scan_misc_roots x = tt
tame_scanners scan_final_jobs_roots x = tt

abbrev root_tls : GcThreadTls RootLocals Toy
root_tls = for_worker 7000

root_scan_complete_example :
    (vs works : List (List ObjectReference)) × (scan_vm_specific_roots checked toy_core
        (λ s. s)
        (some root_tls)
        (unlocked (16 ∷ 24 ∷ []))
        toy
      ≡ ok (root_submissions vs))
    × Permᴰ (concat vs) (16 ∷ 24 ∷ [])
    × (run_jobs checked toy_core tame_upcalls 0
          (root_jobs checked toy_core tame_upcalls 0 vs (800 ∷ []))
          root_tls
          toy
        ≡ ok (
          works,
          root_tls,
          (expected_roots checked toy_core tame_upcalls 0 (concat vs) (800 ∷ []) toy).1,
        ))
    × (concat works ≡ (expected_roots checked toy_core tame_upcalls 0 (concat vs) (800 ∷ []) toy).0)
    × All IsBatch works
unfolding for_worker is_mmtk_object_safe
root_scan_complete_example =
    root_scan_complete checked toy_core tame_upcalls 0 tame_scanners (λ o x. (refl, tt))
      (λ m x. (refl, (refl, tt))) (λ s. s) root_tls (unlocked (16 ∷ 24 ∷ [])) (800 ∷ []) toy toy
      Perm.refl (record { is_worker = refl; no_closure = refl }) refl
