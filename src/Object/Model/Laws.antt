-- ===== src/Object/Model/Laws.antt =====
-- mmtk/src/object_model.rs: what mmtk-core asks of an object, before and after it is copied.
use mmtk_ruby.Base.{ℕ, ◌+◌, ◌/◌, ◌^◌, ◌≤◌, ◌<◌, ◌≡◌, refl, arith, false, Option, ok, free}
use mmtk_ruby.Build.{Build}
use mmtk_ruby.Vm.{Address, ObjectReference, RubyUpcalls}
use mmtk_ruby.Object.{address_sub, obj_start}
use mmtk_ruby.Object.Copy.{CopyContext, CopyState, maybe_givtbl, copy}
use mmtk_ruby.Object.Copy.Laws.{Apart, inside, copy-faithful}
use mmtk_ruby.Object.Model.{
  MetadataSpec, in_header_before, side_first, side_after, bits_in_byte,
  local_forwarding_pointer_spec, get_current_size, get_size_when_copied, ref_to_object_start,
}

-- Where metadata in the header stands.
abbrev pub metadata_addr : MetadataSpec → ObjectReference → Address → Address
metadata_addr (in_header_before bits) object side = address_sub object (bits / bits_in_byte)
metadata_addr side_first object side = side
metadata_addr (side_after spec) object side = side

outside_end : (start size : ℕ) → inside start size (start + size) ≡ false
outside_end start size = ground arith

start-add : (a : Address) → a < 2 ^ 64 → ref_to_object_start (a + 8) ≡ a
unfolding ref_to_object_start obj_start
start-add a h = omega arith

module _ {W : Type 0} (build : Build) (up : RubyUpcalls W) (ctx : CopyContext W) where
  -- If the object has a table whenever its flag says so, its size can be read and is eight bytes at
  -- least, the map is not locked, and `alloc_copy` hands out memory that is inside the address space,
  -- not at zero, and apart from the object: `copy` succeeds. The start that mmtk-core asks for is then
  -- where the memory begins, the current size of the copy is the size that mmtk-core asked for before,
  -- and the forwarding pointer of the old object stands at its start, in place of its size.
  pub copy-queries :
      (suffix_size semantics : ℕ) (from : ObjectReference) (s : CopyState W)
      (givtbl : Option Address) (size : ℕ) (side : Address)
      → let to_start = (ctx.alloc_copy from size 8 0 semantics s.vm).0 in
        maybe_givtbl build up ctx from s.memory s.vm ≡ ok givtbl
        → get_size_when_copied build s.memory suffix_size from ≡ ok size
        → s.moved_givtbl.status ≡ free
        → 0 < to_start
        → to_start + size < 2 ^ 64
        → Apart (ref_to_object_start from) to_start size
        → 8 ≤ size
        → (to_obj : ObjectReference) × (s' : CopyState W) × (copy build up ctx suffix_size semantics
              from s
            ≡ ok (to_obj, s'))
          × (ref_to_object_start to_obj ≡ to_start)
          × (get_current_size build s'.memory suffix_size to_obj ≡ ok size)
          × (metadata_addr local_forwarding_pointer_spec from side ≡ ref_to_object_start from)
  unfolding get_size_when_copied get_current_size ref_to_object_start obj_start
  copy-queries suffix_size semantics from s givtbl size side eg es unlocked positive high apart
        low =
      let to_start = (ctx.alloc_copy from size 8 0 semantics s.vm).0 in
      let (s', e, _, _, kept) =
        copy-faithful build up ctx suffix_size semantics from s givtbl size 0 (to_start + size) eg
          es unlocked positive high apart low (omega arith) (outside_end to_start size) in
      (to_start + 8, s', e, start-add to_start (omega arith), kept, refl)
