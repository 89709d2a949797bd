-- ===== src/Scanning/Fixed.antt =====
-- mmtk/src/scanning.rs: the methods of `VMScanning` with a fixed answer, and those that mmtk-core does
-- not call for Ruby, which panic.
use mmtk_ruby.Base.{Bool, false, Outcome, panic, unsupported}
use mmtk_ruby.Vm.{Address, ObjectReference}

abbrev pub support_slot_enqueuing : (tls : Address) → ObjectReference → Bool
support_slot_enqueuing tls object = false

abbrev pub scan_object : (tls : Address) → ObjectReference → Outcome (Unit {0})
scan_object tls object = panic unsupported

abbrev pub notify_initial_thread_scan_complete :
    {W : Type 0} → (partial_scan : Bool) → (tls : Address) → W → W
notify_initial_thread_scan_complete partial_scan tls w = w

abbrev pub supports_return_barrier : Bool
supports_return_barrier = false

abbrev pub prepare_for_roots_re_scanning : Outcome (Unit {0})
prepare_for_roots_re_scanning = panic unsupported

abbrev pub forward_weak_refs : Outcome (Unit {0})
forward_weak_refs = panic unsupported
