-- ===== src/Abi/RawVec.antt =====
-- mmtk/src/abi.rs: `RawVecOfObjRef`, a vector that CRuby holds. A `Vec` of the Rust library is a
-- pointer, a length and a capacity; the allocator is the list of the buffers that are in use.
use mmtk_ruby.Base.{ℕ, not, ◌||◌, ◌==◌, List, keep}
use mmtk_ruby.Vm.{Address}

pub record VecParts : Type 0 where
  pub as_mut_ptr : Address
  pub len : ℕ
  pub capacity : ℕ

pub record RawVecOfObjRef : Type 0 where
  pub ptr : Address
  pub len : ℕ
  pub capa : ℕ

-- `ManuallyDrop` leaves the buffer in use.
unfoldable pub from_vec : VecParts → RawVecOfObjRef
from_vec vec = record { ptr = vec.as_mut_ptr; len = vec.len; capa = vec.capacity }

unfoldable pub into_vec : RawVecOfObjRef → VecParts
into_vec raw = record { as_mut_ptr = raw.ptr; len = raw.len; capacity = raw.capa }

abbrev pub Buffers : Type 0
Buffers = List Address

-- The end of the life of a `Vec`; one without capacity has no buffer.
unfoldable pub drop_vec : VecParts → Buffers → Buffers
drop_vec vec buffers = keep (λ a. vec.capacity == 0 || not (a == vec.as_mut_ptr)) buffers
