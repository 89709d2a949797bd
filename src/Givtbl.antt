-- ===== src/Givtbl.antt =====
-- mmtk/src/binding.rs: `MovedGIVTblEntry`, and the map from the new address of a moved object to
-- its entry.
use mmtk_ruby.Base.{List}
use mmtk_ruby.Vm.{Address, ObjectReference}

pub record MovedGivtblEntry : Type 0 where
  pub old_objref : ObjectReference
  pub gen_ivtbl : Address

abbrev pub MovedGivtbl : Type 0
MovedGivtbl = List (ObjectReference × MovedGivtblEntry)
