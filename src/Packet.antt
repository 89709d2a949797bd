-- ===== src/Packet.antt =====
-- The work packets that the binding submits: the types of mmtk/src/scanning.rs, mmtk/src/ppp.rs and
-- mmtk/src/weak_proc.rs that implement `GCWork`.
use mmtk_ruby.Base.{ℕ, Bool, List}
use mmtk_ruby.Stage.{WorkBucketStage}
use mmtk_ruby.Vm.{Address, ObjectReference}

-- The instances of `define_global_root_scanner!`.
pub data RootScanner : Type 0 where
  scan_vm_roots : RootScanner
  scan_end_proc_roots : RootScanner
  scan_global_tbl_roots : RootScanner
  scan_yjit_roots : RootScanner
  scan_global_symbols_roots : RootScanner
  scan_finalizer_tbl_roots : RootScanner
  scan_obj_to_id_tbl_roots : RootScanner
  scan_misc_roots : RootScanner
  scan_final_jobs_roots : RootScanner

-- The instances of `define_global_table_processor!` that are used.
pub data TableProcessor : Type 0 where
  update_generic_iv_tbl : TableProcessor
  update_finalizer_and_obj_id_tables : TableProcessor
  update_overloaded_cme_table : TableProcessor
  update_ci_table : TableProcessor

-- `after_all` names the shared `AfterAll`. The names of tables, kept for logging, are left out.
pub record UpdateTableEntriesParallel : Type 0 where
  pub table : Address
  pub begin : ℕ
  pub end : ℕ
  pub weak_keys : Bool
  pub weak_values : Bool
  pub forward : Bool
  pub after_all : ℕ

pub record UpdateTableBinsParallel : Type 0 where
  pub table : Address
  pub begin : ℕ
  pub end : ℕ

pub data Packet : Type 0 where
  root_scanner : RootScanner → Packet
  scan_wb_unprotected_roots : (objects : List ObjectReference) → Packet
  pin_ppp_children : (ppps : List ObjectReference) → Packet
  remove_dead_ppps : Packet
  unpin_ppp_children : (children : List ObjectReference) → Packet
  process_obj_free_candidates : Packet
  table_processor : TableProcessor → Packet
  update_wb_unprotected_objects_list : Packet
  update_table_entries : UpdateTableEntriesParallel → Packet
  update_table_bins : UpdateTableBinsParallel → Packet

-- One call of `add` or `bulk_add` on a bucket of the scheduler.
pub record Submission : Type 0 where
  pub stage : WorkBucketStage
  pub packets : List Packet
