-- ===== src/Object/Model.antt =====
-- mmtk/src/object_model.rs: the layout of metadata, and the queries of `VMObjectModel`. The methods
-- for MarkCompact panic, as do those that are not written yet.
mod Laws
mod Tests
use mmtk_ruby.Base.{ℕ, ◌*◌, Bool, true, false, List, Outcome, panic, unsupported}
use mmtk_ruby.Build.{Build}
use mmtk_ruby.Vm.{Address, ObjectReference}
use mmtk_ruby.Object.{objref_offset, Memory, obj_start, payload_addr, object_size}

-- Where mmtk-core keeps some bits for each object: in the header, as many bits before the object
-- reference as the number says, or on the side, first or after another specification.
pub data MetadataSpec : Type 0 where
  in_header_before : (bits : ℕ) → MetadataSpec
  side_first : MetadataSpec
  side_after : MetadataSpec → MetadataSpec

abbrev pub bits_in_byte : ℕ
bits_in_byte = 8

abbrev pub global_log_bit_spec : MetadataSpec
global_log_bit_spec = side_first

-- In place of the word that holds the size.
abbrev pub local_forwarding_pointer_spec : MetadataSpec
local_forwarding_pointer_spec = in_header_before (objref_offset * bits_in_byte)

abbrev pub local_forwarding_bits_spec : MetadataSpec
local_forwarding_bits_spec = side_first

abbrev pub local_mark_bit_spec : MetadataSpec
local_mark_bit_spec = side_after local_forwarding_bits_spec

abbrev pub local_pinning_bit_spec : MetadataSpec
local_pinning_bit_spec = side_after local_mark_bit_spec

abbrev pub local_los_mark_nursery_spec : MetadataSpec
local_los_mark_nursery_spec = side_after local_pinning_bit_spec

abbrev pub unified_object_reference_address : Bool
unified_object_reference_address = false

abbrev pub object_ref_offset_lower_bound : ℕ
object_ref_offset_lower_bound = objref_offset

abbrev pub need_vo_bits_during_tracing : Bool
need_vo_bits_during_tracing = true

-- `get_current_size`; `suffix_size` is the one of `BINDING_FAST_MUT`.
pub get_current_size : Build → Memory → (suffix_size : ℕ) → ObjectReference → Outcome ℕ
get_current_size build memory suffix_size object = object_size build memory suffix_size object

pub get_size_when_copied : Build → Memory → (suffix_size : ℕ) → ObjectReference → Outcome ℕ
unfolding get_current_size
get_size_when_copied build memory suffix_size object =
    get_current_size build memory suffix_size object

pub ref_to_object_start : ObjectReference → Address
ref_to_object_start object = obj_start object

pub ref_to_header : ObjectReference → Address
ref_to_header object = payload_addr object

abbrev pub copy_to : (from to : ObjectReference) → (region : Address) → Outcome Address
copy_to from to region = panic unsupported

abbrev pub get_reference_when_copied_to :
    (from : ObjectReference) → (to : Address) → Outcome ObjectReference
get_reference_when_copied_to from to = panic unsupported

abbrev pub get_type_descriptor : ObjectReference → Outcome (List ℕ)
get_type_descriptor reference = panic unsupported

abbrev pub get_align_when_copied : ObjectReference → Outcome ℕ
get_align_when_copied object = panic unsupported

abbrev pub get_align_offset_when_copied : ObjectReference → Outcome ℕ
get_align_offset_when_copied object = panic unsupported

abbrev pub dump_object : ObjectReference → Outcome (Unit {0})
dump_object object = panic unsupported
