-- ===== src/Object/Copy.antt =====
-- mmtk/src/object_model.rs: `VMObjectModel::copy`, over the memory, CRuby's state and the map of
-- moved generic instance variable tables.
pub mod Laws
pub mod Givtbls
pub mod Tests
use mmtk_ruby.Base.{
  ℕ, ◌+◌, ◌-◌, Bool, true, false, not, ◌&&◌, leb, ltb, ◌==◌, if◌then◌else◌, Option, none, some,
  Outcome, ok, panic, ◌>>=◌, ◌>>◌, Mutex, lock, assertion, no_givtbl,
}
use mmtk_ruby.Base.HashMap
use mmtk_ruby.Build.{Build, debug_assert}
use mmtk_ruby.Vm.{Address, ObjectReference, RubyUpcalls}
use mmtk_ruby.Givtbl.{MovedGivtbl, MovedGivtblEntry}
use mmtk_ruby.Object.{
  objref_offset, min_obj_align, Memory, address_add, obj_start, has_exivar_flag, object_size,
  get_original_givtbl,
}

-- `GCWorkerCopyContext` of mmtk-core. `CopySemantics` is a number.
pub record CopyContext (W : Type 0) : Type 0 where
  -- object, bytes, align, offset, semantics
  pub alloc_copy : ObjectReference → ℕ → ℕ → ℕ → ℕ → W → Address × W
  pub post_copy : ObjectReference → ℕ → ℕ → W → W

pub record CopyState (W : Type 0) : Type 0 where
  pub vm : W
  pub memory : Memory
  pub moved_givtbl : Mutex MovedGivtbl

-- `copy_nonoverlapping::<u8>`
unfoldable pub copy_nonoverlapping : Address → Address → ℕ → Memory → Memory
copy_nonoverlapping from to n memory a =
    if leb to a && ltb a (to + n) then memory (from + (a - to)) else memory a

-- `write_bytes::<u8>(…, 0, n)`
unfoldable pub write_zeros : Address → ℕ → Memory → Memory
write_zeros from n memory a = if leb from a && ltb a (from + n) then 0 else memory a

module _ {W : Type 0} (build : Build) (up : RubyUpcalls W) (ctx : CopyContext W) where
  -- The table of the object, if its flag says that it has one.
  pub maybe_givtbl : ObjectReference → Memory → W → Outcome (Option Address)
  maybe_givtbl from memory w =
      if has_exivar_flag memory from
      then elim (get_original_givtbl up from w) [
        | some givtbl ↦ ok (some givtbl)
        | none ↦ panic no_givtbl
      ]
      else ok none

  pub clear_old_copy : Address → ℕ → Memory → Memory
  clear_old_copy from_start size memory =
      if build.clear_old_copy then write_zeros from_start size memory else memory

  -- The map is locked only if there is a table.
  pub record_givtbl :
      Option Address
      → (from to_obj : ObjectReference) → Mutex MovedGivtbl
      → Outcome (Mutex MovedGivtbl)
  record_givtbl none from to_obj m = ok m
  record_givtbl (some givtbl) from to_obj m = do
    moved_givtbl ← lock m
    ok (record {
      status = m.status;
      value = HashMap.insert moved_givtbl to_obj (record { old_objref = from; gen_ivtbl = givtbl });
    })

  -- `suffix_size` is the one of `BINDING_FAST_MUT`.
  pub copy :
      (suffix_size semantics : ℕ)
      → ObjectReference
      → CopyState W
      → Outcome (ObjectReference × CopyState W)
  copy suffix_size semantics from s = do
    givtbl ← maybe_givtbl from s.memory s.vm
    let from_start = obj_start from
    size ← object_size build s.memory suffix_size from
    let to = ctx.alloc_copy from size min_obj_align 0 semantics s.vm
    debug_assert build (not (to.0 == 0)) assertion
    let to_payload = address_add to.0 objref_offset
    let copied = copy_nonoverlapping from_start to.0 size s.memory
    let w = ctx.post_copy to_payload size semantics to.1
    m ← record_givtbl givtbl from to_payload s.moved_givtbl
    ok (
      to_payload,
      record { vm = w; memory = clear_old_copy from_start size copied; moved_givtbl = m },
    )
