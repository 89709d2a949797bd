-- ===== src/Object/Copy/Tests.antt =====
-- Object 16 of the small heap, with the table at 5000, copied to 2000.
use mmtk_ruby.Base.{
  bit_and, ◌≡◌, ◌*◌, refl, arith, inl, true, ◌==◌, if◌then◌else◌, some, [], ok, unlocked,
}
use mmtk_ruby.Base.HashMap
use mmtk_ruby.Base.HashMap.{IsHashMap}
use mmtk_ruby.Build.{Build, add_usize}
use mmtk_ruby.Vm.Toy.{Toy, toy, toy_upcalls}
use mmtk_ruby.Object.{
  Memory, load_bytes, obj_start, object_size, payload_size, header_payload_size, assert_sane,
  hidden_header, is_sane, has_exivar_flag, get_original_givtbl, get_givtbl,
}
use mmtk_ruby.Object.Copy.{
  CopyContext, CopyState, maybe_givtbl, record_givtbl, clear_old_copy, copy_nonoverlapping,
  write_zeros, copy,
}
use mmtk_ruby.Object.Copy.Laws.{copy-faithful}
use mmtk_ruby.Object.Copy.Givtbls.{copy-keeps_givtbl}

abbrev pub checked : Build
checked = record { debug_assertions = true; extra_assert_feature = true; clear_old_copy = true }

abbrev bytes : Memory
bytes a = if a == 8 then 40 else if a == 17 then 4 else 0

abbrev pub to_2000 : CopyContext Toy
to_2000 = record {
  alloc_copy = λ o size align offset semantics w. (2000, w);
  post_copy = λ o size semantics w. w;
}

abbrev pub before : CopyState Toy
before = record { vm = toy; memory = bytes; moved_givtbl = unlocked [] }

pub size_48 : object_size checked bytes 0 16 ≡ ok 48
unfolding object_size payload_size header_payload_size assert_sane is_sane hidden_header load_bytes
    obj_start add_usize
size_48 = refl

pub table_5000 : maybe_givtbl checked toy_upcalls to_2000 16 bytes toy ≡ ok (some 5000)
unfolding maybe_givtbl has_exivar_flag load_bytes get_original_givtbl
table_5000 = refl

pub flags_16 : bit_and (load_bytes 8 bytes 16) 1024 ≡ 1024
unfolding load_bytes
flags_16 = refl

copy-faithful_example :
    (s' : CopyState Toy) × (copy checked toy_upcalls to_2000 0 0 16 before ≡ ok (2008, s'))
    × (s'.memory 2009 ≡ 4)
    × (s'.memory 17 ≡ 0)
    × (object_size checked s'.memory 0 2008 ≡ ok 48)
unfolding obj_start
copy-faithful_example =
    copy-faithful checked toy_upcalls to_2000 0 0 16 before (some 5000) 48 9 17 table_5000 size_48
      refl (omega arith) (omega arith) (inl (omega arith)) (omega arith) (omega arith) refl

copy-keeps_givtbl_example :
    (s' : CopyState Toy) × (copy checked toy_upcalls to_2000 0 0 16 before ≡ ok (2008, s'))
    × (get_givtbl toy_upcalls 2008 s'.moved_givtbl s'.vm ≡ ok 5000)
    × (HashMap.get s'.moved_givtbl.value 2008 ≡ some (record { old_objref = 16; gen_ivtbl = 5000 }))
    × IsHashMap s'.moved_givtbl.value
copy-keeps_givtbl_example =
    copy-keeps_givtbl checked toy_upcalls to_2000 0 0 16 before 5000 48 2008 table_5000 size_48 refl
      (omega arith) (omega arith) refl tt

-- Every object goes to a hundred times its address.
abbrev pub by_hundred : CopyContext Toy
by_hundred = record {
  alloc_copy = λ o size align offset semantics w. (o * 100, w);
  post_copy = λ o size semantics w. w;
}

-- Object 16, with a table, and then object 72, with none.
pub two_copied :
    (s₁ s₂ : CopyState Toy) × (copy checked toy_upcalls by_hundred 0 0 16 before ≡ ok (1608, s₁))
    × (copy checked toy_upcalls by_hundred 0 0 72 s₁ ≡ ok (7208, s₂))
    × (bit_and (load_bytes 8 s₁.memory 72) 1024 ≡ 0)
unfolding copy object_size payload_size header_payload_size assert_sane is_sane hidden_header
    load_bytes obj_start add_usize maybe_givtbl has_exivar_flag get_original_givtbl record_givtbl
    clear_old_copy copy_nonoverlapping write_zeros
two_copied = (_, _, refl, refl, refl)
