-- ===== src/Cycle/Closure/Tests.antt =====
-- The packets of the VMRefClosure stage on a small heap: 24 is dead, and 16 has moved to 1016.
use mathlib.Core.List.{Permᴰ}
use mathlib.Core.List.Permᴰ as Perm
use mathlib.Core.List.{reverse}
use mmtk_ruby.Base.{ℕ, Bool, ◌≡◌, refl, true, false, List, [], ◌∷◌, ◌++◌, map, ok, unlocked, arith}
use mmtk_ruby.Base.HashSet.{contains}
use mmtk_ruby.Build.{Build, add_usize}
use mmtk_ruby.Vm.{Address}
use mmtk_ruby.Vm.Toy.{Toy, toy, toy_core, toy_upcalls}
use mmtk_ruby.Packet.{
  Packet, process_obj_free_candidates, Submission, TableProcessor, update_generic_iv_tbl,
  update_finalizer_and_obj_id_tables, update_overloaded_cme_table, update_ci_table,
}
use mmtk_ruby.Abi.Tls.{for_worker}
use mmtk_ruby.Weak.{set_candidates}
use mmtk_ruby.Weak.Processors.Laws.{VisitsObjects, cleaner}
use mmtk_ruby.Utils.AfterAll.{new, add_packets, count_up}
use mmtk_ruby.Stage.{vm_ref_closure}
use mmtk_ruby.Weak.Ranges.{chunked_range, chunk_at, chunks_from}
use mmtk_ruby.Weak.Tables.{
  ChunkSizes, TableWork, entries_packet, bins_packet, fixed_packets, process_weak_table_chunked,
}
use mmtk_ruby.Weak.Tables.Laws.{process_weak_stuff-tables}
use mmtk_ruby.Cycle.Closure.{Closing, run_packets}
use mmtk_ruby.Cycle.Closure.Steps.{Behaves}
use mmtk_ruby.Cycle.Closure.Entries.{spent}
use mmtk_ruby.Cycle.Closure.Ordered.{all_packets}
use mmtk_ruby.Cycle.Closure.Laws.{weak_stage_complete}

abbrev release : Build
release = record { debug_assertions = false; extra_assert_feature = false; clear_old_copy = false }

abbrev defaults : ChunkSizes
defaults = record { entries = 1024; bins = 4096 }

abbrev closing : Closing Toy
closing = record {
  tls = for_worker 7000;
  weak_proc = record { obj_free_candidates = unlocked (16 ∷ 24 ∷ 32 ∷ []) };
  moved_givtbl = unlocked ((1016, record { old_objref = 16; gen_ivtbl = 5000 }) ∷ []);
  wb_unprotected = unlocked (24 ∷ 16 ∷ []);
  strings = spent;
  symbols = spent;
  vm = toy;
}

toy_visits : (p : TableProcessor) (w : Toy) → VisitsObjects toy_core (cleaner toy_upcalls p w)
toy_visits update_generic_iv_tbl w = tt
toy_visits update_finalizer_and_obj_id_tables w = tt
toy_visits update_overloaded_cme_table w = tt
toy_visits update_ci_table w = tt

toy-Behaves : Behaves toy_core toy_upcalls
toy-Behaves = record {
  frees = λ o w x. (refl, refl);
  moves = λ o n w x. (refl, refl);
  visits = toy_visits;
  cleans = λ p w x. (refl, refl);
  entries = λ t b e k v f w x. (refl, refl);
  bins = λ t b e w x. (refl, refl);
}

-- The entries 2 to 3000 in three packets, and the bins.
abbrev work : Address → (keys values : Bool) → (name : ℕ) → TableWork
work table keys values name = record {
  after_all = record {
    counter = 3;
    stage = vm_ref_closure;
    packets = map (bins_packet table) ((0, 4096) ∷ (1024, 4096) ∷ (2048, 4096) ∷ (3072, 4096) ∷ []);
  };
  entries_packets =
      map (entries_packet table keys values true name)
        ((2, 1026) ∷ (1026, 2050) ∷ (2050, 3000) ∷ []);
}

abbrev strings_work : TableWork
strings_work = work 9008 true false 0

abbrev symbols_work : TableWork
symbols_work = work 9040 false true 1

strings_cut :
    process_weak_table_chunked release toy_upcalls defaults 0 9008 true false true toy
    ≡ ok strings_work
unfolding process_weak_table_chunked chunked_range chunk_at chunks_from new add_packets count_up
    add_usize
strings_cut = refl

symbols_cut :
    process_weak_table_chunked release toy_upcalls defaults 1 9040 false true true toy
    ≡ ok symbols_work
unfolding process_weak_table_chunked chunked_range chunk_at chunks_from new add_packets count_up
    add_usize
symbols_cut = refl

abbrev at_closure : List Packet → Submission
at_closure packets = record { stage = vm_ref_closure; packets = packets }

abbrev subs : List Submission
subs =
    at_closure (process_obj_free_candidates ∷ [])
    ∷ at_closure (fixed_packets release toy_upcalls defaults)
    ∷ at_closure strings_work.entries_packets
    ∷ at_closure symbols_work.entries_packets
    ∷ []

-- The packets run backwards.
weak_stage_complete_example :
    (released : List Packet) × (s' : Closing Toy) × (run_packets release toy_core toy_upcalls
        (λ m. m)
        reverse
        (reverse (all_packets subs))
        (record closing { strings = strings_work.after_all; symbols = symbols_work.after_all })
      ≡ ok (released, s'))
    × Permᴰ released (strings_work.after_all.packets ++ symbols_work.after_all.packets)
    × ((s'.weak_proc ≡ set_candidates closing.weak_proc (1016 ∷ 32 ∷ []))
        × (s'.moved_givtbl ≡ unlocked [])
        × (contains s'.wb_unprotected.value 1016 ≡ true))
    × (s'.strings ≡ spent)
    × (s'.symbols ≡ spent)
unfolding for_worker
weak_stage_complete_example =
    weak_stage_complete release toy_core toy_upcalls (λ m. m) reverse defaults toy-Behaves Perm.refl
      Perm.reverse closing 1016 subs strings_work symbols_work (reverse (all_packets subs))
      (omega arith) (omega arith) (omega arith, omega arith, omega arith)
      (omega arith, omega arith, omega arith)
      (record {
        idle = record { is_worker = refl; no_closure = refl };
        candidates_free = refl;
        moved_free = refl;
        objects_free = refl;
      })
      (process_weak_stuff-tables release toy_upcalls defaults toy_core toy strings_work symbols_work
        strings_cut symbols_cut)
      (Perm.reverse (all_packets subs))
