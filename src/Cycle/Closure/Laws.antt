-- ===== src/Cycle/Closure/Laws.antt =====
-- mmtk/src/weak_proc.rs: what the packets of `process_weak_stuff` leave when they have all run.
use mathlib.Core.List.{Permᴰ}
use mmtk_ruby.Base.{◌≤◌, ◌<◌, ◌≡◌, refl, ◌∙◌, List, ◌++◌, ok, subst, sym, ap, ok-injective}
use mmtk_ruby.Base.HashSet.{HashSet}
use mmtk_ruby.Build.{Build}
use mmtk_ruby.Vm.{ObjectReference, Core, RubyUpcalls}
use mmtk_ruby.Givtbl.{MovedGivtbl}
use mmtk_ruby.Packet.{Packet, Submission}
use mmtk_ruby.Weak.Tables.{ChunkSizes, TableWork, process_weak_stuff}
use mmtk_ruby.Cycle.Closure.{Closing, run_packets}
use mmtk_ruby.Cycle.Closure.Steps.{IsQuiet, Behaves}
use mmtk_ruby.Cycle.Closure.Books.{settle_all, settle_all-perm}
use mmtk_ruby.Cycle.Closure.Refines.{books, with_books, run_packets-settle_all}
use mmtk_ruby.Cycle.Closure.Entries.{spent}
use mmtk_ruby.Cycle.Closure.Ordered.{
  all_packets, HasEntries, Collected, IsQuiet-counters, submitted_in_order,
}

module _ {W : Type 0} (build : Build) (core : Core W) (up : RubyUpcalls W)
    (drain : MovedGivtbl → MovedGivtbl) (order : HashSet → List ObjectReference)
    (sizes : ChunkSizes) where
  module _ (calm : Behaves core up)
      (drains : (entries : MovedGivtbl) → Permᴰ (drain entries) entries)
      (iterates : (objects : HashSet) → Permᴰ (order objects) objects) where
    -- If CRuby's code for these packets asks for MMTk objects only and does not change what is
    -- reachable or where objects have moved, the chunk size of the entries is positive, that of the
    -- bins is no smaller, both weak tables have entries and their chunks can be numbered without
    -- overflow, the map and the set may be drained and iterated over in any order, no lock is held
    -- and the worker is idle: when the packets that `process_weak_stuff` submits have run on one
    -- worker, in any order, all of them have succeeded. They have released exactly the packets that
    -- the two tables kept for the end, in some order, and both counters are spent. The candidates
    -- for `obj_free` are then those that were reachable, forwarded and in order; no moved table is left to
    -- be reported; and the set of WB-unprotected objects holds exactly the places where its
    -- reachable members are now.
    pub weak_stage_complete :
        (s : Closing W) (y : ObjectReference) (subs : List Submission) (strings symbols : TableWork)
        (ps : List Packet)
        → 0 < sizes.entries
        → sizes.entries ≤ sizes.bins
        → HasEntries up sizes (up.get_frozen_strings_table s.vm) s.vm
        → HasEntries up sizes (up.get_global_symbols_table s.vm) s.vm
        → IsQuiet s
        → process_weak_stuff build up sizes core s.vm ≡ ok (subs, strings, symbols)
        → Permᴰ ps (all_packets subs)
        → (released : List Packet) × (s' : Closing W) × (run_packets build core up drain order ps
              (record s { strings = strings.after_all; symbols = symbols.after_all })
            ≡ ok (released, s'))
          × Permᴰ released (strings.after_all.packets ++ symbols.after_all.packets)
          × Collected core y s (books s')
          × (s'.strings ≡ spent)
          × (s'.symbols ≡ spent)
    weak_stage_complete s y subs strings symbols ps p e has has' quiet submits perm =
        let (s', ordered, done, spent', spent'') =
          submitted_in_order build core up drain order sizes calm drains iterates s y subs strings
            symbols p e has has' quiet submits in
        let s₀ = record s { strings = strings.after_all; symbols = symbols.after_all } in
        let quiet₀ = IsQuiet-counters strings.after_all symbols.after_all s quiet in
        let settles = run_packets-settle_all build core up drain order s.vm calm drains in
        let (w, ran, _) = settles (all_packets subs) s₀ (λ o. (refl, refl)) quiet₀ in
        let (w', ran', _) = settles ps s₀ (λ o. (refl, refl)) quiet₀ in
        let agree = ok-injective (sym ran ∙ ordered) in
        let (alike, rel) = settle_all-perm core order s.vm perm (books s₀) in
        let r = settle_all core order s.vm ps (books s₀) in
        let kept : r.1 ≡ books s' = alike ∙ ap (λ q. books q.1) agree in
        (
          r.0,
          with_books s.tls r.1 w',
          ran',
          subst (λ x. Permᴰ r.0 x) (ap (λ q. q.0) agree) rel,
          subst (λ b. Collected core y s b) (sym kept) done,
          ap (λ b. b.strings) kept ∙ spent',
          ap (λ b. b.symbols) kept ∙ spent'',
        )
