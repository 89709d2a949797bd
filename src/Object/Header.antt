-- ===== src/Object/Header.antt =====
-- mmtk/src/abi.rs: the hidden size field of an object, and the addresses found with it.
mod Tests
use mmtk_ruby.Base.{
  ℕ, ◌+◌, ◌-◌, ◌*◌, ◌/◌, ◌%◌, ◌^◌, ◌≤◌, ◌<◌, ◌≡◌, refl, sym, ◌↔◌, arith, Bool, true, false, not,
  ◌&&◌, ◌||◌, ltb, ◌==◌, if◌then◌else◌, Outcome, ok, panic, corrupted_header, ◌>>=◌, ◌∙◌, bit_and,
}
use mmtk_ruby.Base.Bits.{and_size_mask, and_top_mask, and_bit}
use mmtk_ruby.Build.{Build, add_usize, extra_assert}
use mmtk_ruby.Vm.{ObjectReference}
use mmtk_ruby.Object.{
  Memory, load, HiddenHeader, is_sane, header_payload_size, assert_sane, hidden_header, obj_start,
  payload_size, suffix_addr, obj_end, object_size, has_exivar_flag,
}

-- The header is sane exactly if the size fits in its 48 bits.
pub is_sane_iff : (h : HiddenHeader) → h.prefix < 2 ^ 64 → (is_sane h ≡ true) ↔ (h.prefix < 2 ^ 48)
unfolding is_sane
is_sane_iff h b = ground (arith, and_top_mask h.prefix b)

is_sane-ltb : (h : HiddenHeader) → h.prefix < 2 ^ 64 → is_sane h ≡ ltb h.prefix (2 ^ 48)
is_sane-ltb h b = ground (arith, is_sane_iff h b)

-- The payload size on every branch: a word that does not fit in 48 bits panics in a build with
-- extra assertions, and is cut down to 48 bits in any other; a word that fits is the size.
pub payload_size-branches :
    (build : Build) (memory : Memory) (o : ObjectReference)
    → load memory (obj_start o) < 2 ^ 64
    → payload_size build memory o ≡ (
        if (build.debug_assertions || build.extra_assert_feature)
          && not (ltb (load memory (obj_start o)) (2 ^ 48))
        then panic corrupted_header
        else ok (load memory (obj_start o) % 2 ^ 48))
unfolding payload_size hidden_header header_payload_size assert_sane
payload_size-branches build memory o b =
    rw
      (
        and_size_mask (load memory (obj_start o)),
        is_sane-ltb (record { prefix = load memory (obj_start o) }) b,
      )
      (ground arith)

payload_size-sane :
    (build : Build) (memory : Memory) (o : ObjectReference)
    → load memory (obj_start o) < 2 ^ 48
    → payload_size build memory o ≡ ok (load memory (obj_start o))
payload_size-sane build memory o h =
    payload_size-branches build memory o (omega arith) ∙ ground arith

-- For a sane object that ends within the address space, the size is the distance from its start to
-- its end, and it is the sum of the prefix, the payload and the suffix.
pub object_size-extent :
    (build : Build) (memory : Memory) (suffix_size : ℕ) (o : ObjectReference)
    → load memory (obj_start o) < 2 ^ 48
    → 8 ≤ o
    → o + load memory (obj_start o) + suffix_size < 2 ^ 64
    → (size end : ℕ) × (object_size build memory suffix_size o ≡ ok size)
      × (obj_end build memory suffix_size o ≡ ok end)
      × (obj_start o + size ≡ end)
      × (size ≡ 8 + load memory (obj_start o) + suffix_size)
unfolding object_size obj_end suffix_addr add_usize obj_start
object_size-extent build memory suffix_size o sane low high = (
  8 + load memory (obj_start o) + suffix_size,
  o + load memory (obj_start o) + suffix_size,
  rw (payload_size-sane build memory o sane) (ground arith),
  rw (payload_size-sane build memory o sane) (ground arith),
  omega arith,
  refl,
)

-- The flag is bit 10 of the first word of the payload.
pub has_exivar_flag_lem :
    (memory : Memory) (o : ObjectReference)
    → has_exivar_flag memory o ≡ (load memory o / 2 ^ 10 % 2 == 1)
unfolding has_exivar_flag
has_exivar_flag_lem memory o = ground (arith, and_bit 10 (load memory o))
