-- ===== src/Object/Copy/Laws.antt =====
-- mmtk/src/object_model.rs: what `copy` does to the memory.
use mmtk_ruby.Base.{
  ℕ, zero, suc, ◌+◌, ◌*◌, ◌%◌, ◌^◌, ◌≤◌, ◌<◌, ◌≡◌, refl, ap, ◌∙◌, arith, Bool, true, false, not,
  ◌&&◌, leb, ltb, ◌==◌, if◌then◌else◌, Option, none, some, ok, ◌>>=◌, Mutex, free, ◌⊎◌, assertion,
}
use mmtk_ruby.Base.HashMap
use mmtk_ruby.Build.{Build, debug_assert-true, add_usize}
use mmtk_ruby.Vm.{Address, ObjectReference, RubyUpcalls}
use mmtk_ruby.Givtbl.{MovedGivtbl}
use mmtk_ruby.Object.{
  Memory, load_bytes, load, obj_start, object_size, payload_size, header_payload_size,
  hidden_header,
}
use mmtk_ruby.Object.Copy.{
  CopyContext, CopyState, copy_nonoverlapping, write_zeros, maybe_givtbl, clear_old_copy,
  record_givtbl, copy,
}

load_bytes_ext :
    (n : ℕ) (m m' : Memory) (a a' : Address)
    → ((i : ℕ) → i < n → m' (i + a') ≡ m (i + a))
    → load_bytes n m' a' ≡ load_bytes n m a
unfolding load_bytes
load_bytes_ext zero m m' a a' h = refl
load_bytes_ext (suc n) m m' a a' h =
    ap (λ x. x + 256 * load_bytes n m' (a' + 1))
      (ap m' (omega arith) ∙ h 0 (omega arith) ∙ ap m (omega arith))
    ∙ ap (λ r. m a + 256 * r)
        (load_bytes_ext n m m' (a + 1) (a' + 1)
          (λ i k. ap m' (omega arith) ∙ h (suc i) (omega arith) ∙ ap m (omega arith)))

pub not_zero : (a : ℕ) → 0 < a → not (a == 0) ≡ true
not_zero a h = ground arith

obj_start-add : (a : Address) → a < 2 ^ 64 → obj_start (a + 8) ≡ a
unfolding obj_start
obj_start-add a h = omega arith

-- Whether an address is one of the `n` bytes from `start` on.
abbrev pub inside : Address → ℕ → Address → Bool
inside start n a = leb start a && ltb a (start + n)

-- Two regions with no byte in common.
abbrev pub Apart : Address → Address → ℕ → Type 0
Apart from to n = (from + n ≤ to) ⊎ (to + n ≤ from)

module _ {W : Type 0} (build : Build) (up : RubyUpcalls W) (ctx : CopyContext W) where
  -- What is left of the memory.
  abbrev pub memory_after : Address → Address → ℕ → Memory → Memory
  memory_after from_start to_start size memory =
      clear_old_copy build up ctx from_start size
        (copy_nonoverlapping from_start to_start size memory)

  memory_after-copy :
      (from_start to_start size : ℕ) (memory : Memory) (i : ℕ)
      → Apart from_start to_start size
      → i < size
      → memory_after from_start to_start size memory (to_start + i) ≡ memory (from_start + i)
  unfolding clear_old_copy copy_nonoverlapping write_zeros
  memory_after-copy from_start to_start size memory i apart h = ground arith

  memory_after-outside :
      (from_start to_start size : ℕ) (memory : Memory) (a : Address)
      → inside to_start size a ≡ false
      → memory_after from_start to_start size memory a
        ≡ (if build.clear_old_copy && inside from_start size a then 0 else memory a)
  unfolding clear_old_copy copy_nonoverlapping write_zeros
  memory_after-outside from_start to_start size memory a h = ground arith

  -- The header of the copy reads as that of the original.
  hidden_header-copy :
      (from to_start size : ℕ) (memory : Memory)
      → Apart (obj_start from) to_start size
      → 8 ≤ size
      → to_start + size < 2 ^ 64
      → hidden_header (memory_after (obj_start from) to_start size memory) (to_start + 8)
        ≡ hidden_header memory from
  unfolding hidden_header
  hidden_header-copy from to_start size memory apart low high =
      ap (λ p. record { prefix = p })
        (ap (load (memory_after (obj_start from) to_start size memory))
            (obj_start-add to_start (omega arith))
          ∙ load_bytes_ext 8 memory (memory_after (obj_start from) to_start size memory)
              (obj_start from) to_start
              (λ i k.
                ap (memory_after (obj_start from) to_start size memory) (omega arith)
                ∙ memory_after-copy (obj_start from) to_start size memory i apart (omega arith)
                ∙ ap memory (omega arith)))

  object_size-copy :
      (suffix_size from to_start size : ℕ) (memory : Memory)
      → Apart (obj_start from) to_start size
      → 8 ≤ size
      → to_start + size < 2 ^ 64
      → object_size build
          (memory_after (obj_start from) to_start size memory)
          suffix_size
          (to_start + 8)
        ≡ object_size build memory suffix_size from
  unfolding object_size payload_size
  object_size-copy suffix_size from to_start size memory apart low high =
      ap
        (λ h. header_payload_size build h >>= λ payload.
          add_usize build 8 payload >>= λ front. add_usize build front suffix_size)
        (hidden_header-copy from to_start size memory apart low high)

  record_givtbl-free :
      (givtbl : Option Address) (from to_obj : ObjectReference) (m : Mutex MovedGivtbl)
      → m.status ≡ free
      → (m' : Mutex MovedGivtbl) × (record_givtbl build up ctx givtbl from to_obj m ≡ ok m')
  unfolding record_givtbl
  record_givtbl-free none from to_obj m h = (m, refl)
  record_givtbl-free (some g) from to_obj m h = (
    record {
      status = m.status;
      value = HashMap.insert m.value to_obj (record { old_objref = from; gen_ivtbl = g });
    },
    rw h refl,
  )

  -- If the object has a table whenever its flag says so, its size can be read and is eight bytes at
  -- least, the map is not locked, and `alloc_copy` hands out memory that is inside the address space, not at zero, and
  -- apart from the object: `copy` succeeds, and the reference it returns is eight bytes behind the
  -- start of that memory. The bytes of the copy are those of the object; no other byte has changed,
  -- except that with `clear_old_copy` the old ones are zero; and the size of the copy reads as the
  -- size of the object.
  pub copy-faithful :
      (suffix_size semantics : ℕ) (from : ObjectReference) (s : CopyState W)
      (givtbl : Option Address) (size i : ℕ) (a : Address)
      → let to_start = (ctx.alloc_copy from size 8 0 semantics s.vm).0 in
        maybe_givtbl build up ctx from s.memory s.vm ≡ ok givtbl
        → object_size build s.memory suffix_size from ≡ ok size
        → s.moved_givtbl.status ≡ free
        → 0 < to_start
        → to_start + size < 2 ^ 64
        → Apart (obj_start from) to_start size
        → 8 ≤ size
        → i < size
        → inside to_start size a ≡ false
        → (s' : CopyState W) × (copy build up ctx suffix_size semantics from s
            ≡ ok (to_start + 8, s'))
          × (s'.memory (to_start + i) ≡ s.memory (obj_start from + i))
          × (s'.memory a
              ≡ (if build.clear_old_copy && inside (obj_start from) size a then 0 else s.memory a))
          × (object_size build s'.memory suffix_size (to_start + 8) ≡ ok size)
  unfolding copy
  copy-faithful suffix_size semantics from s givtbl size i a eg es unlocked positive high apart low
        hi out =
      let to_start = (ctx.alloc_copy from size 8 0 semantics s.vm).0 in
      let (m, em) = record_givtbl-free givtbl from (to_start + 8) s.moved_givtbl unlocked in
      let wraps : (to_start + 8) % 2 ^ 64 ≡ to_start + 8 = omega arith in
      (
        record {
          vm =
              ctx.post_copy (to_start + 8) size semantics
                (ctx.alloc_copy from size 8 0 semantics s.vm).1;
          memory = memory_after (obj_start from) to_start size s.memory;
          moved_givtbl = m;
        },
        rw (eg, es, not_zero to_start positive, debug_assert-true build assertion, wraps, em) refl,
        memory_after-copy (obj_start from) to_start size s.memory i apart hi,
        memory_after-outside (obj_start from) to_start size s.memory a out,
        object_size-copy suffix_size from to_start size s.memory apart low high ∙ es,
      )
