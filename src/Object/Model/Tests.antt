-- ===== src/Object/Model/Tests.antt =====
-- Object 16 of the small heap, copied to 2000.
use mmtk_ruby.Base.{◌≡◌, refl, arith, inl, some, ok}
use mmtk_ruby.Vm.{ObjectReference}
use mmtk_ruby.Vm.Toy.{Toy, toy_upcalls}
use mmtk_ruby.Object.{obj_start}
use mmtk_ruby.Object.Copy.{CopyState, copy}
use mmtk_ruby.Object.Copy.Tests.{checked, before, to_2000, size_48, table_5000}
use mmtk_ruby.Object.Model.{
  local_forwarding_pointer_spec, get_current_size, get_size_when_copied, ref_to_object_start,
}
use mmtk_ruby.Object.Model.Laws.{metadata_addr, copy-queries}

copy-queries_example :
    (to_obj : ObjectReference) × (s' : CopyState Toy) × (copy checked toy_upcalls to_2000 0 0 16
        before
      ≡ ok (to_obj, s'))
    × (ref_to_object_start to_obj ≡ 2000)
    × (get_current_size checked s'.memory 0 to_obj ≡ ok 48)
    × (metadata_addr local_forwarding_pointer_spec 16 0 ≡ ref_to_object_start 16)
unfolding ref_to_object_start obj_start get_size_when_copied get_current_size
copy-queries_example =
    copy-queries checked toy_upcalls to_2000 0 0 16 before (some 5000) 48 0 table_5000 size_48 refl
      (omega arith) (omega arith) (inl (omega arith)) (omega arith)
