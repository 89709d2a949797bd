-- ===== src/Cycle/Closure/Refines.antt =====
-- mmtk/src/weak_proc.rs: the packets of the weak processing do to the binding what `settle` says.
use mathlib.Core.List.{Permᴰ}
use mmtk_ruby.Base.{
  ◌==◌, ◌≡◌, refl, sym, free, ap, ◌∙◌, Bool, true, false, List, [], ◌∷◌, map, keep, ok, Bool-cases,
  inl, inr, unlocked,
}
use mmtk_ruby.Base.HashSet.{HashSet}
use mmtk_ruby.Build.{Build}
use mmtk_ruby.Vm.{ObjectReference, Core, RubyUpcalls}
use mmtk_ruby.Givtbl.{MovedGivtbl}
use mmtk_ruby.Packet.{
  Packet, process_obj_free_candidates, TableProcessor, table_processor, update_generic_iv_tbl,
  update_finalizer_and_obj_id_tables, update_overloaded_cme_table, update_ci_table,
  update_wb_unprotected_objects_list, update_table_entries, UpdateTableEntriesParallel,
  update_table_bins, root_scanner, scan_wb_unprotected_roots, pin_ppp_children, remove_dead_ppps,
  unpin_ppp_children,
}
use mmtk_ruby.Abi.Tls.{GcThreadTls}
use mmtk_ruby.Weak.{forward}
use mmtk_ruby.Weak.WbList.Heap.{do_work_same}
use mmtk_ruby.Weak.ObjFree.Laws.{SameHeap, free_all, dead, do_work-partition}
use mmtk_ruby.Weak.Parallel.{entries_do_work, bins_do_work}
use mmtk_ruby.Weak.Processors.Laws.{forwarded, cleaner, before, left, do_work-forwarded}
use mmtk_ruby.Cycle.Closure.{Closing, run_packet, run_packets}
use mmtk_ruby.Cycle.Closure.Steps.{
  Behaves, IsQuiet, SameHeap-trans, free_all-SameHeap, before-SameHeap,
}
use mmtk_ruby.Cycle.Closure.Books.{
  Books, Effect, frees, drains, updates, counts_string, counts_symbol, nothing, effect, settle,
  settle_all,
}

abbrev pub books : {W : Type 0} → Closing W → Books
books s = record {
  weak_proc = s.weak_proc;
  moved_givtbl = s.moved_givtbl;
  wb_unprotected = s.wb_unprotected;
  strings = s.strings;
  symbols = s.symbols;
}

abbrev pub with_books : {W : Type 0} → GcThreadTls (Unit {0}) W → Books → W → Closing W
with_books tls b w = record {
  tls = tls;
  weak_proc = b.weak_proc;
  moved_givtbl = b.moved_givtbl;
  wb_unprotected = b.wb_unprotected;
  strings = b.strings;
  symbols = b.symbols;
  vm = w;
}

kept_same :
    {W : Type 0} (core : Core W) {w₀ w : W}
    → SameHeap core w₀ w
    → (xs : List ObjectReference)
    → map (forward core w) (keep (core.is_reachable w) xs)
      ≡ map (forward core w₀) (keep (core.is_reachable w₀) xs)
kept_same core h [] = refl
kept_same core {w₀} {w} h (x ∷ xs) = elim (Bool-cases (core.is_reachable w₀ x)) [
  | inl alive ↦ rw ((h x).0, alive, (h x).1, kept_same core h xs) refl
  | inr gone ↦ rw ((h x).0, gone) (kept_same core h xs)
]

module _ {W : Type 0} (build : Build) (core : Core W) (up : RubyUpcalls W)
    (drain : MovedGivtbl → MovedGivtbl) (order : HashSet → List ObjectReference) (w₀ : W)
    (calm : Behaves core up)
    (drained : (entries : MovedGivtbl) → Permᴰ (drain entries) entries) where
  abbrev step : Packet → Closing W → List Packet × Books
  step p s = settle core order w₀ (effect p) (books s)

  IsQuiet-again :
      (b : Books) (s : Closing W) (w : W)
      → IsQuiet s
      → b.weak_proc.obj_free_candidates.status ≡ s.weak_proc.obj_free_candidates.status
      → b.moved_givtbl.status ≡ free
      → b.wb_unprotected.status ≡ s.wb_unprotected.status
      → IsQuiet (with_books s.tls b w)
  IsQuiet-again b s w q e f g = record {
    idle = q.idle;
    candidates_free = e ∙ q.candidates_free;
    moved_free = f;
    objects_free = g ∙ q.objects_free;
  }

  settle-IsQuiet :
      (e : Effect) (s : Closing W) (w : W)
      → IsQuiet s
      → IsQuiet (with_books s.tls (settle core order w₀ e (books s)).1 w)
  settle-IsQuiet frees s w q =
      IsQuiet-again (settle core order w₀ frees (books s)).1 s w q refl q.moved_free refl
  settle-IsQuiet drains s w q =
      IsQuiet-again (settle core order w₀ drains (books s)).1 s w q refl refl refl
  settle-IsQuiet updates s w q =
      IsQuiet-again (settle core order w₀ updates (books s)).1 s w q refl q.moved_free refl
  settle-IsQuiet counts_string s w q =
      IsQuiet-again (settle core order w₀ counts_string (books s)).1 s w q refl q.moved_free refl
  settle-IsQuiet counts_symbol s w q =
      IsQuiet-again (settle core order w₀ counts_symbol (books s)).1 s w q refl q.moved_free refl
  settle-IsQuiet nothing s w q =
      IsQuiet-again (settle core order w₀ nothing (books s)).1 s w q refl q.moved_free refl

  -- What a packet does, if the heap is that of `w₀`.
  Settles : Packet → Closing W → Type 0
  Settles p s =
      (w : W) × (run_packet build core up drain order p s
        ≡ ok ((step p s).0, with_books s.tls (step p s).1 w))
      × SameHeap core w₀ w

  processor_settles :
      (p : TableProcessor) (s : Closing W)
      → SameHeap core w₀ s.vm
      → IsQuiet s
      → (w : W) × (run_packet build core up drain order (table_processor p) s
          ≡ ok ([], record s { moved_givtbl = unlocked (left p s.moved_givtbl.value); vm = w }))
        × SameHeap core w₀ w
  unfolding run_packet
  processor_settles p s same q =
      let (entries, _, e) =
        do_work-forwarded build core up p drain s.tls s.moved_givtbl s.vm drained q.idle
          q.moved_free (calm.visits p (before up p (drain s.moved_givtbl.value) s.vm)) in
      (
        forwarded core (cleaner up p (before up p entries s.vm)),
        rw e refl,
        SameHeap-trans core same (
            SameHeap-trans core (before-SameHeap core up calm p entries s.vm)
              (calm.cleans p (before up p entries s.vm))),
      )

  still_free : (s : Closing W) → IsQuiet s → unlocked s.moved_givtbl.value ≡ s.moved_givtbl
  still_free s q =
      ap (λ st. record { status = st; value = s.moved_givtbl.value }) (sym q.moved_free)

  entries_settle :
      (p : UpdateTableEntriesParallel) (s : Closing W) (b : Bool)
      → (p.after_all == 0) ≡ b
      → SameHeap core w₀ s.vm
      → Settles (update_table_entries p) s
  unfolding Settles run_packet effect entries_do_work
  entries_settle p s true h same = (
    (entries_do_work up p s.strings s.vm).vm,
    rw h refl,
    SameHeap-trans core same
        (calm.entries p.table p.begin p.end p.weak_keys p.weak_values p.forward s.vm),
  )
  entries_settle p s false h same = (
    (entries_do_work up p s.symbols s.vm).vm,
    rw h refl,
    SameHeap-trans core same
        (calm.entries p.table p.begin p.end p.weak_keys p.weak_values p.forward s.vm),
  )

  run_packet-Settles :
      (p : Packet) (s : Closing W) → SameHeap core w₀ s.vm → IsQuiet s → Settles p s
  unfolding Settles run_packet effect bins_do_work
  run_packet-Settles process_obj_free_candidates s same q =
      let objects = s.weak_proc.obj_free_candidates.value in
      let (freed, _) = do_work-partition core up calm.frees s.weak_proc s.vm q.candidates_free in
      let gone = keep (dead core up calm.frees s.vm) objects in
      (
        free_all up gone s.vm,
        rw (freed, kept_same core same objects) refl,
        SameHeap-trans core same (free_all-SameHeap core up calm gone s.vm),
      )
  run_packet-Settles (table_processor update_generic_iv_tbl) s same q =
      processor_settles update_generic_iv_tbl s same q
  run_packet-Settles (table_processor update_finalizer_and_obj_id_tables) s same q =
      let (w, e, h) = processor_settles update_finalizer_and_obj_id_tables s same q in
      (w, e ∙ ap (λ m. ok ([], record s { moved_givtbl = m; vm = w })) (still_free s q), h)
  run_packet-Settles (table_processor update_overloaded_cme_table) s same q =
      let (w, e, h) = processor_settles update_overloaded_cme_table s same q in
      (w, e ∙ ap (λ m. ok ([], record s { moved_givtbl = m; vm = w })) (still_free s q), h)
  run_packet-Settles (table_processor update_ci_table) s same q =
      let (w, e, h) = processor_settles update_ci_table s same q in
      (w, e ∙ ap (λ m. ok ([], record s { moved_givtbl = m; vm = w })) (still_free s q), h)
  run_packet-Settles update_wb_unprotected_objects_list s same q =
      (s.vm, rw (do_work_same core w₀ s.vm same order s.wb_unprotected q.objects_free) refl, same)
  run_packet-Settles (update_table_entries p) s same q =
      entries_settle p s (p.after_all == 0) refl same
  run_packet-Settles (update_table_bins p) s same q = (
    bins_do_work up p s.vm,
    refl,
    SameHeap-trans core same (calm.bins p.table p.begin p.end s.vm),
  )
  run_packet-Settles (root_scanner r) s same q = (s.vm, refl, same)
  run_packet-Settles (scan_wb_unprotected_roots o) s same q = (s.vm, refl, same)
  run_packet-Settles (pin_ppp_children o) s same q = (s.vm, refl, same)
  run_packet-Settles remove_dead_ppps s same q = (s.vm, refl, same)
  run_packet-Settles (unpin_ppp_children o) s same q = (s.vm, refl, same)

  pub run_packets-settle_all :
      (ps : List Packet) (s : Closing W)
      → SameHeap core w₀ s.vm
      → IsQuiet s
      → let r = settle_all core order w₀ ps (books s) in
        (w : W) × (run_packets build core up drain order ps s ≡ ok (r.0, with_books s.tls r.1 w))
        × SameHeap core w₀ w
  unfolding run_packets Settles
  run_packets-settle_all [] s same q = (s.vm, refl, same)
  run_packets-settle_all (p ∷ ps) s same q =
      let (w, e, same') = run_packet-Settles p s same q in
      let (w', rest, same'') =
        run_packets-settle_all ps (with_books s.tls (step p s).1 w) same'
          (settle-IsQuiet (effect p) s w q) in
      (w', rw (e, rest) refl, same'')
