-- ===== src/Cycle/Closure/Ordered.antt =====
-- mmtk/src/weak_proc.rs: the packets of `process_weak_stuff`, run in the order of submission.
use mathlib.Core.List.{Permᴰ}
use mmtk_ruby.Base.{
  ◌+◌, ◌≤◌, ◌<◌, ◌^◌, ◌≡◌, refl, ◌∙◌, true, false, List, [], ◌∷◌, ◌++◌, map, keep, ok, unlocked,
  arith, subst, sym, ok-injective,
}
use mmtk_ruby.Base.HashSet.{HashSet, contains, any}
use mmtk_ruby.Build.{Build}
use mmtk_ruby.Stage.{vm_ref_closure}
use mmtk_ruby.Vm.{ObjectReference, Core, RubyUpcalls, Address}
use mmtk_ruby.Givtbl.{MovedGivtbl}
use mmtk_ruby.Packet.{
  Packet, TableProcessor, update_generic_iv_tbl, update_finalizer_and_obj_id_tables,
  update_overloaded_cme_table, update_ci_table, table_processor, Submission,
  process_obj_free_candidates, update_wb_unprotected_objects_list,
}
use mmtk_ruby.Utils.AfterAll.{AfterAll}
use mmtk_ruby.Weak.{set_candidates, forward}
use mmtk_ruby.Weak.WbList.{goes_to, do_work-contains}
use mmtk_ruby.Weak.ObjFree.Laws.{free_all, dead, do_work-partition}
use mmtk_ruby.Weak.Tables.{ChunkSizes, TableWork, fixed_packets, process_weak_stuff}
use mmtk_ruby.Weak.Tables.Laws.{table_chunks, process_weak_stuff-tables}
use mmtk_ruby.Cycle.Closure.{Closing, run_packet, run_packets}
use mmtk_ruby.Cycle.Closure.Steps.{
  IsQuiet, Behaves, SameHeap-trans, goes_to_same, free_all-SameHeap, run_processors,
  run_packets-append, run_three,
}
use mmtk_ruby.Cycle.Closure.Books.{Books}
use mmtk_ruby.Cycle.Closure.Refines.{books}
use mmtk_ruby.Cycle.Closure.Entries.{spent, run_packets-table}

-- The packets of some submissions, in order.
abbrev pub all_packets : List Submission → List Packet
all_packets [] = []
all_packets (s ∷ ss) = s.packets ++ all_packets ss

abbrev processors : List TableProcessor
processors =
    update_generic_iv_tbl ∷ update_finalizer_and_obj_id_tables ∷ update_overloaded_cme_table
    ∷ update_ci_table ∷ []

pub IsQuiet-counters :
    {W : Type 0} (a b : AfterAll Packet) (s : Closing W)
    → IsQuiet s
    → IsQuiet (record s { strings = a; symbols = b })
IsQuiet-counters a b s quiet = record {
  idle = quiet.idle;
  candidates_free = quiet.candidates_free;
  moved_free = quiet.moved_free;
  objects_free = quiet.objects_free;
}

module _ {W : Type 0} (up : RubyUpcalls W) (sizes : ChunkSizes) where
  -- A table with an entry, whose chunks can be numbered without overflow.
  abbrev pub HasEntries : Address → W → Type 0
  HasEntries table w =
      ((up.st_get_size_info table w).0 < (up.st_get_size_info table w).1)
      × ((up.st_get_size_info table w).1 + sizes.entries ≤ 2 ^ 64)
      × ((up.st_get_size_info table w).2 + sizes.bins ≤ 2 ^ 64)

module _ {W : Type 0} (core : Core W) where
  -- What the packets for candidates, tables and WB-unprotected objects leave of the state `s`.
  abbrev pub Collected : ObjectReference → Closing W → Books → Type 0
  Collected y s s' =
      (s'.weak_proc
        ≡ set_candidates s.weak_proc (
            map (forward core s.vm)
              (keep (core.is_reachable s.vm) s.weak_proc.obj_free_candidates.value)))
      × (s'.moved_givtbl ≡ unlocked [])
      × (contains s'.wb_unprotected.value y ≡ any (goes_to core s.vm y) s.wb_unprotected.value)

module _ {W : Type 0} (build : Build) (core : Core W) (up : RubyUpcalls W)
    (drain : MovedGivtbl → MovedGivtbl) (order : HashSet → List ObjectReference)
    (sizes : ChunkSizes) where
  abbrev submission : List Packet → Submission
  submission packets = record { stage = vm_ref_closure; packets = packets }

  abbrev submitted : TableWork → TableWork → List Submission
  submitted strings symbols =
      submission (process_obj_free_candidates ∷ [])
      ∷ submission (fixed_packets build up sizes)
      ∷ submission strings.entries_packets
      ∷ submission symbols.entries_packets
      ∷ []

  module _ (calm : Behaves core up)
      (drains : (entries : MovedGivtbl) → Permᴰ (drain entries) entries)
      (iterates : (objects : HashSet) → Permᴰ (order objects) objects) where
    run_fixed :
        (y : ObjectReference) (s : Closing W)
        → IsQuiet s
        → (s' : Closing W) × (run_packets build core up drain order
              (process_obj_free_candidates ∷ fixed_packets build up sizes)
              s
            ≡ ok ([], s'))
          × Collected core y s (books s')
          × (s'.strings ≡ s.strings)
          × (s'.symbols ≡ s.symbols)
    unfolding run_packets run_packet
    run_fixed y s quiet =
        let objects = s.weak_proc.obj_free_candidates.value in
        let (freed, _) =
          do_work-partition core up calm.frees s.weak_proc s.vm quiet.candidates_free in
        let gone = keep (dead core up calm.frees s.vm) objects in
        let w₁ = free_all up gone s.vm in
        let s₁ = record s {
          weak_proc =
              set_candidates s.weak_proc
                (map (forward core s.vm) (keep (core.is_reachable s.vm) objects));
          vm = w₁;
        } in
        let (w₂, ran, same) =
          run_processors build core up drain order calm drains processors s₁ quiet.idle
            quiet.moved_free in
        let (new_set, updated, holds, _) =
          do_work-contains core w₂ order s.wb_unprotected y iterates quiet.objects_free in
        let heap = SameHeap-trans core (free_all-SameHeap core up calm gone s.vm) same in
        let s₂ = record s₁ { moved_givtbl = unlocked []; vm = w₂ } in
        let s₃ = record s₂ {
          wb_unprotected = record { status = s.wb_unprotected.status; value = new_set };
        } in
        let fixed : run_packets build core up drain order (fixed_packets build up sizes) s₁
            ≡ ok ([], s₃) =
          run_packets-append build core up drain order (map table_processor processors)
            (update_wb_unprotected_objects_list ∷ []) s₁ s₂ s₃ [] [] ran (rw updated refl) in
        (
          s₃,
          rw (freed, fixed) refl,
          (refl, refl, holds ∙ goes_to_same core y s.wb_unprotected.value heap),
          refl,
          refl,
        )

    -- The order of submission, on one worker.
    in_order :
        (s : Closing W) (y : ObjectReference)
        → 0 < sizes.entries
        → sizes.entries ≤ sizes.bins
        → HasEntries up sizes (up.get_frozen_strings_table s.vm) s.vm
        → HasEntries up sizes (up.get_global_symbols_table s.vm) s.vm
        → IsQuiet s
        → (subs : List Submission) × (strings symbols : TableWork) × (s' : Closing W)
          × (process_weak_stuff build up sizes core s.vm ≡ ok (subs, strings, symbols))
          × (run_packets build core up drain order
                (all_packets subs)
                (record s { strings = strings.after_all; symbols = symbols.after_all })
              ≡ ok (strings.after_all.packets ++ symbols.after_all.packets, s'))
          × Collected core y s (books s')
          × (s'.strings ≡ spent)
          × (s'.symbols ≡ spent)
    in_order s y p e has has' quiet =
        let moving = core.current_gc_may_move_object s.vm in
        let table = up.get_frozen_strings_table s.vm in
        let table' = up.get_global_symbols_table s.vm in
        let (strings, es, once, _, ready, short, flags) =
          table_chunks build up sizes 0 table true false moving s.vm
            (up.st_get_size_info table s.vm).0 p e has.1 has.2 in
        let (symbols, es', once', _, ready', short', flags') =
          table_chunks build up sizes 1 table' false true moving s.vm
            (up.st_get_size_info table' s.vm).0 p e has'.1 has'.2 in
        let s₀ = record s { strings = strings.after_all; symbols = symbols.after_all } in
        let (s₁, fixed, done, held, held') =
          run_fixed y s₀ (IsQuiet-counters strings.after_all symbols.after_all s quiet) in
        let (w₂, ran) =
          run_packets-table build core up drain order true table true false moving strings
            (up.st_get_size_info table s.vm).0 s₁ flags (rw once (ground arith)) ready (omega arith)
            held in
        let s₂ = record s₁ { strings = spent; vm = w₂ } in
        let (w₃, ran') =
          run_packets-table build core up drain order false table' false true moving symbols
            (up.st_get_size_info table' s.vm).0 s₂ flags' (rw once' (ground arith)) ready'
            (omega arith) held' in
        let s₃ = record s₂ { symbols = spent; vm = w₃ } in
        (
          submitted strings symbols,
          strings,
          symbols,
          s₃,
          process_weak_stuff-tables build up sizes core s.vm strings symbols es es',
          run_three build core up drain order
              (process_obj_free_candidates ∷ fixed_packets build up sizes) strings.entries_packets
              symbols.entries_packets s₀ s₁ s₂ s₃ strings.after_all.packets
              symbols.after_all.packets fixed ran ran',
          done,
          refl,
          refl,
        )

    pub submitted_in_order :
        (s : Closing W) (y : ObjectReference) (subs : List Submission) (strings symbols : TableWork)
        → 0 < sizes.entries
        → sizes.entries ≤ sizes.bins
        → HasEntries up sizes (up.get_frozen_strings_table s.vm) s.vm
        → HasEntries up sizes (up.get_global_symbols_table s.vm) s.vm
        → IsQuiet s
        → process_weak_stuff build up sizes core s.vm ≡ ok (subs, strings, symbols)
        → (s' : Closing W) × (run_packets build core up drain order
              (all_packets subs)
              (record s { strings = strings.after_all; symbols = symbols.after_all })
            ≡ ok (strings.after_all.packets ++ symbols.after_all.packets, s'))
          × Collected core y s (books s')
          × (s'.strings ≡ spent)
          × (s'.symbols ≡ spent)
    submitted_in_order s y subs strings symbols p e has has' quiet submits =
        let (subs', strings', symbols', s', submits', ordered, done, spent', spent'') =
          in_order s y p e has has' quiet in
        (
          s',
          subst
              (λ q.
                run_packets build core up drain order (all_packets q.0)
                  (record s { strings = q.1.after_all; symbols = q.2.after_all })
                ≡ ok (q.1.after_all.packets ++ q.2.after_all.packets, s'))
              (ok-injective (sym submits' ∙ submits)) ordered,
          done,
          spent',
          spent'',
        )
