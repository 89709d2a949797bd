-- ===== src/ReferenceGlue.antt =====
-- mmtk/src/reference_glue.rs: the Java-style reference processing of mmtk-core, which Ruby does not
-- use; every method panics.
use mmtk_ruby.Base.{List, Option, Outcome, panic, unsupported}
use mmtk_ruby.Vm.{Address, ObjectReference}

abbrev pub get_referent : ObjectReference → Outcome (Option ObjectReference)
get_referent object = panic unsupported

abbrev pub set_referent : (reff referent : ObjectReference) → Outcome (Unit {0})
set_referent reff referent = panic unsupported

abbrev pub enqueue_references : List ObjectReference → (tls : Address) → Outcome (Unit {0})
enqueue_references references tls = panic unsupported

abbrev pub clear_referent : (new_reference : ObjectReference) → Outcome (Unit {0})
clear_referent new_reference = panic unsupported
