-- ===== src/Weak/Tables.antt =====
-- mmtk/src/weak_proc.rs: the work packets of the VMRefClosure stage.
pub mod Laws
mod Tests
use mmtk_ruby.Base.{ℕ, Bool, true, false, List, [], ◌∷◌, ◌++◌, map, length, Outcome, ok, ◌>>=◌}
use mmtk_ruby.Build.{Build}
use mmtk_ruby.Stage.{vm_ref_closure}
use mmtk_ruby.Vm.{Address, Core, RubyUpcalls}
use mmtk_ruby.Packet.{
  Packet, table_processor, update_generic_iv_tbl, update_finalizer_and_obj_id_tables,
  update_overloaded_cme_table, update_ci_table, process_obj_free_candidates,
  update_wb_unprotected_objects_list, update_table_entries, update_table_bins, Submission,
}
use mmtk_ruby.Utils.AfterAll.{AfterAll, new, add_packets, count_up}
use mmtk_ruby.Weak.Ranges.{chunked_range}

-- `st_entries_chunk_size` and `st_bins_chunk_size` of `RubyBinding`.
pub record ChunkSizes : Type 0 where
  pub entries : ℕ
  pub bins : ℕ

-- What one call of `process_weak_table_chunked` leaves: the shared `AfterAll`, and the packets that
-- it adds to the bucket.
pub record TableWork : Type 0 where
  pub after_all : AfterAll Packet
  pub entries_packets : List Packet

abbrev pub entries_packet : Address → Bool → Bool → Bool → ℕ → ℕ × ℕ → Packet
entries_packet table weak_keys weak_values forward name (begin, end) =
    update_table_entries (record {
      table = table;
      begin = begin;
      end = end;
      weak_keys = weak_keys;
      weak_values = weak_values;
      forward = forward;
      after_all = name;
    })

abbrev pub bins_packet : Address → ℕ × ℕ → Packet
bins_packet table (begin, end) =
    update_table_bins (record { table = table; begin = begin; end = end })

module _ {W : Type 0} (build : Build) (up : RubyUpcalls W) (sizes : ChunkSizes) where
  -- `name` stands for the address of the new `AfterAll`. The bins are stepped through by the chunk
  -- size of the entries, as in the source.
  unfoldable pub process_weak_table_chunked :
      (name : ℕ) (table : Address) (weak_keys weak_values forward : Bool) → W → Outcome TableWork
  process_weak_table_chunked name table weak_keys weak_values forward w = do
    let info = up.st_get_size_info table w
    entries ← chunked_range build sizes.entries sizes.entries info.0 info.1
    let entries_packets = map (entries_packet table weak_keys weak_values forward name) entries
    let counted = count_up (new vm_ref_closure) (length entries_packets)
    bins ← chunked_range build sizes.entries sizes.bins 0 info.2
    ok (record {
      after_all = add_packets counted (map (bins_packet table) bins);
      entries_packets = entries_packets;
    })

  -- The packets that `process_weak_stuff` submits itself.
  abbrev pub fixed_packets : List Packet
  fixed_packets =
      table_processor update_generic_iv_tbl
      ∷ table_processor update_finalizer_and_obj_id_tables
      ∷ table_processor update_overloaded_cme_table
      ∷ table_processor update_ci_table
      ∷ update_wb_unprotected_objects_list
      ∷ []

  abbrev closure_stage : List Packet → Submission
  closure_stage packets = record { stage = vm_ref_closure; packets = packets }

  -- `WeakProcessor::process_weak_stuff`: what it submits, and the two shared counters, which are
  -- named 0 (frozen strings) and 1 (global symbols).
  pub process_weak_stuff : Core W → W → Outcome (List Submission × TableWork × TableWork)
  unfolding process_weak_table_chunked
  process_weak_stuff core w = do
    let forward = core.current_gc_may_move_object w
    strings ← process_weak_table_chunked 0 (up.get_frozen_strings_table w) true false forward w
    symbols ← process_weak_table_chunked 1 (up.get_global_symbols_table w) false true forward w
    ok (
      closure_stage (process_obj_free_candidates ∷ [])
          ∷ closure_stage fixed_packets
          ∷ closure_stage strings.entries_packets
          ∷ closure_stage symbols.entries_packets
          ∷ [],
      strings,
      symbols,
    )
