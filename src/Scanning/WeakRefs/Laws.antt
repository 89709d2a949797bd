-- ===== src/Scanning/WeakRefs/Laws.antt =====
-- mmtk/src/scanning.rs: what `process_weak_refs` submits, in a moving GC and in another.
use mmtk_ruby.Base.{
  ℕ, ◌+◌, ◌≤◌, ◌<◌, ◌^◌, ◌≡◌, refl, Bool, true, false, List, [], ◌∷◌, map, if◌then◌else◌, ok, free,
}
use mmtk_ruby.Build.{Build}
use mmtk_ruby.Stage.{vm_ref_closure}
use mmtk_ruby.Vm.{Address, ObjectReference, Core, RubyUpcalls}
use mmtk_ruby.Packet.{
  update_table_entries, table_processor, update_generic_iv_tbl, update_finalizer_and_obj_id_tables,
  update_overloaded_cme_table, update_ci_table, update_wb_unprotected_objects_list, Packet,
  process_obj_free_candidates, remove_dead_ppps, unpin_ppp_children, Submission,
}
use mmtk_ruby.Ppp.{PppRegistry, set_pinned, cleanup_ppps}
use mmtk_ruby.Ppp.Registry.{cleanup_ppps-moving, cleanup_ppps-non_moving}
use mmtk_ruby.Weak.Ranges.Cover.{covers, in_range}
use mmtk_ruby.Weak.Tables.{ChunkSizes, TableWork}
use mmtk_ruby.Weak.Tables.Laws.{entry_ranges, table_chunks, process_weak_stuff-tables}
use mmtk_ruby.Scanning.WeakRefs.{process_weak_refs}

abbrev at_closure : List Packet → Submission
at_closure packets = record { stage = vm_ref_closure; packets = packets }

-- What is submitted for the PPPs.
abbrev pub ppp_packets : Bool → List ObjectReference → List Submission
ppp_packets true children =
    at_closure (remove_dead_ppps ∷ []) ∷ at_closure (unpin_ppp_children children ∷ []) ∷ []
ppp_packets false children = at_closure (remove_dead_ppps ∷ []) ∷ []

-- The packets that are submitted in every GC, apart from those of the weak tables.
abbrev pub always : List Packet
always =
    table_processor update_generic_iv_tbl
    ∷ table_processor update_finalizer_and_obj_id_tables
    ∷ table_processor update_overloaded_cme_table
    ∷ table_processor update_ci_table
    ∷ update_wb_unprotected_objects_list
    ∷ []

-- The packet for one range of entries.
abbrev pub entries_update : Address → (keys values forward : Bool) → (name : ℕ) → ℕ × ℕ → Packet
entries_update table keys values forward name range = update_table_entries (record {
  table = table;
  begin = range.0;
  end = range.1;
  weak_keys = keys;
  weak_values = values;
  forward = forward;
  after_all = name;
})

module _ {W : Type 0} (build : Build) (up : RubyUpcalls W) (sizes : ChunkSizes)
    (core : Core W) where
  -- The chunks of a table can be numbered without overflow.
  abbrev pub Fits : Address → W → Type 0
  Fits table w =
      ((up.st_get_size_info table w).1 + sizes.entries ≤ 2 ^ 64)
      × ((up.st_get_size_info table w).2 + sizes.bins ≤ 2 ^ 64)

  -- The number of packets for entry `i`, of the entries that a table has.
  abbrev pub EachEntryOnce : TableWork → Address → ℕ → W → Type 0
  EachEntryOnce t table i w = covers i (entry_ranges t.entries_packets) ≡ (
      if in_range (up.st_get_size_info table w).0 (up.st_get_size_info table w).1 i then 1 else 0)

  -- The packets of a table, with the flags that it needs.
  abbrev pub HasFlags : TableWork → Address → (keys values forward : Bool) → (name : ℕ) → Type 0
  HasFlags t table keys values forward name =
      t.entries_packets
      ≡ map (entries_update table keys values forward name) (entry_ranges t.entries_packets)

  -- What is submitted when the packets of the tables are given.
  abbrev pub submitted : TableWork → TableWork → Bool → List ObjectReference → List Submission
  submitted strings symbols moving children =
      at_closure (process_obj_free_candidates ∷ [])
      ∷ at_closure always
      ∷ at_closure strings.entries_packets
      ∷ at_closure symbols.entries_packets
      ∷ ppp_packets moving children

  cleanup-either :
      (moving : Bool) (r : PppRegistry) (w : W)
      → core.current_gc_may_move_object w ≡ moving
      → r.pinned_ppp_children.status ≡ free
      → (moving ≡ false → r.pinned_ppp_children.value ≡ [])
      → cleanup_ppps build core r w
        ≡ ok (set_pinned r [], ppp_packets moving r.pinned_ppp_children.value)
  cleanup-either true r w move unlocked empty = cleanup_ppps-moving build core w r move unlocked
  cleanup-either false r w still unlocked empty =
      cleanup_ppps-non_moving build core w r still unlocked (empty refl)

  -- If the chunk size of the entries is positive, that of the bins is no smaller, both weak tables
  -- fit, nobody holds the lock of the pinned children, and outside a moving GC there are none:
  -- `process_weak_refs` succeeds and asks for no further closure. It submits to `VMRefClosure` the
  -- packet for `obj_free`, those for the generic instance variables, for the finalizers and object
  -- identities, for the overloaded CMEs, for the CIs and for the WB-unprotected objects, the packets
  -- of the two tables, that of the dead PPPs, and in a moving GC one that unpins the pinned
  -- children, which the registry has forgotten.
  -- Each entry of the frozen strings is in one packet with weak keys, and each of the global
  -- symbols in one with weak values; these forward exactly in a moving GC.
  pub process_weak_refs-submits :
      (r : PppRegistry) (w : W) (i : ℕ)
      → 0 < sizes.entries
      → sizes.entries ≤ sizes.bins
      → Fits (up.get_frozen_strings_table w) w
      → Fits (up.get_global_symbols_table w) w
      → r.pinned_ppp_children.status ≡ free
      → (core.current_gc_may_move_object w ≡ false → r.pinned_ppp_children.value ≡ [])
      → let moving = core.current_gc_may_move_object w in
        (strings symbols : TableWork) × (process_weak_refs build up sizes core r w
          ≡ ok (
            set_pinned r [],
            submitted strings symbols moving r.pinned_ppp_children.value,
            (strings, symbols),
            false,
          ))
        × EachEntryOnce strings (up.get_frozen_strings_table w) i w
        × EachEntryOnce symbols (up.get_global_symbols_table w) i w
        × HasFlags strings (up.get_frozen_strings_table w) true false moving 0
        × HasFlags symbols (up.get_global_symbols_table w) false true moving 1
  unfolding process_weak_refs
  process_weak_refs-submits r w i p e fits fits' unlocked empty =
      let moving = core.current_gc_may_move_object w in
      let (strings, es, once, _, _, _, flags) =
        table_chunks build up sizes 0 (up.get_frozen_strings_table w) true false moving w i p e
          fits.0 fits.1 in
      let (symbols, es', once', _, _, _, flags') =
        table_chunks build up sizes 1 (up.get_global_symbols_table w) false true moving w i p e
          fits'.0 fits'.1 in
      (
        strings,
        symbols,
        rw
            (
              process_weak_stuff-tables build up sizes core w strings symbols es es',
              cleanup-either moving r w refl unlocked empty,
            )
            refl,
        once,
        once',
        flags,
        flags',
      )
