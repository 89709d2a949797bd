-- ===== src/Object.antt =====
-- mmtk/src/abi.rs: `HiddenHeader` and `RubyObjectAccess`. The memory is a function from addresses
-- to bytes, a word is eight bytes, little-endian, and the arithmetic of addresses wraps around.
-- A `RubyObjectAccess` is its object reference.
pub mod Header
pub mod Copy
mod Model
use mmtk_ruby.Base.{
  ℕ, zero, suc, ◌+◌, ◌-◌, ◌*◌, ◌%◌, ◌^◌, Bool, true, false, not, ◌==◌, if◌then◌else◌, Option, none,
  some, Outcome, ok, panic, ◌>>=◌, ◌>>◌, bit_and, Mutex, lock, corrupted_header, no_givtbl,
}
use mmtk_ruby.Base.HashMap
use mmtk_ruby.Build.{Build, extra_assert, add_usize}
use mmtk_ruby.Vm.{Address, ObjectReference, RubyUpcalls}
use mmtk_ruby.Givtbl.{MovedGivtbl, MovedGivtblEntry}

abbrev pub objref_offset : ℕ
objref_offset = 8

abbrev pub min_obj_align : ℕ
min_obj_align = 8

abbrev pub hidden_size_mask : ℕ
hidden_size_mask = 0x0000FFFFFFFFFFFF

abbrev pub ruby_fl_exivar : ℕ
ruby_fl_exivar = 2 ^ 10

abbrev pub Memory : Type 0
Memory = Address → ℕ

pub load_bytes : ℕ → Memory → Address → ℕ
load_bytes zero memory a = 0
load_bytes (suc n) memory a = memory a + 256 * load_bytes n memory (a + 1)

-- `Address::load::<usize>`
abbrev pub load : Memory → Address → ℕ
load memory a = load_bytes 8 memory a

abbrev pub address_add : Address → ℕ → Address
address_add a n = (a + n) % 2 ^ 64

abbrev pub address_sub : Address → ℕ → Address
address_sub a n = (a + 2 ^ 64 - n) % 2 ^ 64

pub record HiddenHeader : Type 0 where
  pub prefix : ℕ

-- `!HIDDEN_SIZE_MASK` is the complement in 64 bits.
unfoldable pub is_sane : HiddenHeader → Bool
is_sane h = bit_and h.prefix (2 ^ 64 - 1 - hidden_size_mask) == 0

assert_sane : Build → HiddenHeader → Outcome (Unit {0})
unfolding is_sane
assert_sane build h = extra_assert build (is_sane h) corrupted_header

header_payload_size : Build → HiddenHeader → Outcome ℕ
unfolding assert_sane
header_payload_size build h = do assert_sane build h; ok (bit_and h.prefix hidden_size_mask)

abbrev pub prefix_size : ℕ
prefix_size = objref_offset

unfoldable pub obj_start : ObjectReference → Address
obj_start objref = address_sub objref prefix_size

abbrev pub payload_addr : ObjectReference → Address
payload_addr objref = objref

abbrev pub flags_field : ObjectReference → Address
flags_field objref = objref

hidden_header : Memory → ObjectReference → HiddenHeader
unfolding obj_start
hidden_header memory objref = record { prefix = load memory (obj_start objref) }

-- A mutable reference to the header stands for where it is stored.
pub hidden_header_mut : ObjectReference → Address
unfolding obj_start
hidden_header_mut objref = obj_start objref

pub has_exivar_flag : Memory → ObjectReference → Bool
has_exivar_flag memory objref = not (bit_and (load memory (flags_field objref)) ruby_fl_exivar == 0)

module _ (build : Build) (memory : Memory) where
  pub payload_size : ObjectReference → Outcome ℕ
  unfolding header_payload_size hidden_header
  payload_size objref = header_payload_size build (hidden_header memory objref)

  pub suffix_addr : ObjectReference → Outcome Address
  unfolding payload_size
  suffix_addr objref = payload_size objref >>= λ size. ok (address_add objref size)

  -- `suffix_size` is the one of `BINDING_FAST_MUT`.
  pub obj_end : (suffix_size : ℕ) → ObjectReference → Outcome Address
  unfolding suffix_addr
  obj_end suffix_size objref = suffix_addr objref >>= λ a. ok (address_add a suffix_size)

  pub object_size : (suffix_size : ℕ) → ObjectReference → Outcome ℕ
  unfolding payload_size
  object_size suffix_size objref = do
    payload ← payload_size objref
    front ← add_usize build prefix_size payload
    add_usize build front suffix_size

module _ {W : Type 0} (up : RubyUpcalls W) where
  pub get_original_givtbl : ObjectReference → W → Option Address
  get_original_givtbl objref w =
      let addr = up.get_original_givtbl objref w in if addr == 0 then none else some addr

  found_entry : Option MovedGivtblEntry → Outcome Address
  found_entry none = panic no_givtbl
  found_entry (some entry) = ok entry.gen_ivtbl

  -- The map is locked only if CRuby has no table.
  or_moved : Option Address → ObjectReference → Mutex MovedGivtbl → Outcome Address
  or_moved (some addr) objref m = ok addr
  or_moved none objref m = lock m >>= λ moved_givtbl. found_entry (HashMap.get moved_givtbl objref)

  pub get_givtbl : ObjectReference → Mutex MovedGivtbl → W → Outcome Address
  unfolding get_original_givtbl or_moved found_entry
  get_givtbl objref m w = or_moved (get_original_givtbl objref w) objref m
