-- ===== src/Object/Copy/Givtbls.antt =====
-- mmtk/src/object_model.rs and abi.rs: a moved object keeps its generic instance variable table.
use mmtk_ruby.Base.{
  Bool-cases, inl, inr, true≢false, is_ok, bit_and, ℕ, ap, ◌∙◌, not, ◌+◌, ◌%◌, ◌^◌, ◌<◌, ◌≡◌, refl,
  arith, ◌==◌, if◌then◌else◌, sym, Option, none, some, ok, bind-ok, ok-injective, Mutex, free,
  assertion,
}
use mmtk_ruby.Base.HashMap
use mmtk_ruby.Base.HashMap.{get-insert, IsHashMap, insert-IsHashMap}
use mmtk_ruby.Build.{Build, debug_assert, debug_assert-true}
use mmtk_ruby.Vm.{Address, ObjectReference, RubyUpcalls}
use mmtk_ruby.Givtbl.{MovedGivtbl, MovedGivtblEntry}
use mmtk_ruby.Object.{
  Memory, load_bytes, has_exivar_flag, objref_offset, min_obj_align, address_add, obj_start,
  object_size, get_original_givtbl, or_moved, found_entry, get_givtbl,
}
use mmtk_ruby.Object.Copy.{
  CopyContext, CopyState, maybe_givtbl, clear_old_copy, copy_nonoverlapping, record_givtbl, copy,
}
use mmtk_ruby.Object.Copy.Laws.{not_zero}

-- The map after a copy of an object whose table, if it has one, is given.
abbrev pub noted :
    Option Address → (from to_obj : ObjectReference) → Mutex MovedGivtbl → Mutex MovedGivtbl
noted (some g) from to_obj m = record {
  status = free;
  value = HashMap.insert m.value to_obj (record { old_objref = from; gen_ivtbl = g });
}
noted none from to_obj m = m

-- The generic instance variable table of an object: bit 10 of its flags, the word at its address,
-- says that it has one, and then CRuby knows where.
abbrev pub table_of : {W : Type 0} → RubyUpcalls W → Memory → W → ObjectReference → Option Address
table_of up memory w object =
    if bit_and (load_bytes 8 memory object) 1024 == 0
    then none
    else some (up.get_original_givtbl object w)

module _ {W : Type 0} (build : Build) (up : RubyUpcalls W) (ctx : CopyContext W) where
  maybe_givtbl-table_of :
      (from : ObjectReference) (memory : Memory) (w : W) (t : Option Address)
      → maybe_givtbl build up ctx from memory w ≡ ok t
      → t ≡ table_of up memory w from
  unfolding maybe_givtbl has_exivar_flag get_original_givtbl
  maybe_givtbl-table_of from memory w t e =
      elim (Bool-cases (bit_and (load_bytes 8 memory from) 1024 == 0)) [
        | inl bare ↦ sym (ok-injective (rw bare at e)) ∙ rw bare refl
        | inr flagged ↦ elim (Bool-cases (up.get_original_givtbl from w == 0)) [
          | inl missing ↦ absurd (true≢false (sym (ap is_ok (rw (flagged, missing) at e))))
          | inr found ↦ sym (ok-injective (rw (flagged, found) at e)) ∙ rw flagged refl
        ]
      ]

  record_givtbl-some :
      (g : Address) (from to_obj : ObjectReference) (m : Mutex MovedGivtbl)
      → m.status ≡ free
      → record_givtbl build up ctx (some g) from to_obj m
        ≡ ok (record {
          status = free;
          value = HashMap.insert m.value to_obj (record { old_objref = from; gen_ivtbl = g });
        })
  unfolding record_givtbl
  record_givtbl-some g from to_obj m h = rw h refl

  get_givtbl-insert :
      (g : Address) (from to_obj : ObjectReference) (entries : MovedGivtbl) (w : W)
      → up.get_original_givtbl to_obj w ≡ 0
      → get_givtbl up to_obj
          (record {
            status = free;
            value = HashMap.insert entries to_obj (record { old_objref = from; gen_ivtbl = g });
          })
          w
        ≡ ok g
  unfolding get_givtbl get_original_givtbl or_moved found_entry
  get_givtbl-insert g from to_obj entries w h =
      rw (h, get-insert entries to_obj (record { old_objref = from; gen_ivtbl = g }) to_obj)
        (ground arith)

  -- If the object has the table `g` that its flag promises, its size can be read, the map is not
  -- locked, and `alloc_copy` hands out memory inside the address space and not at zero: `copy`
  -- succeeds. While CRuby still knows the table by the old address only, the lookup at the new
  -- address finds `g`. The map has the old address for the new one, and is as before for every
  -- other key; each key is there once, as it was before.
  pub copy-keeps_givtbl :
      (suffix_size semantics : ℕ) (from : ObjectReference) (s : CopyState W) (g : Address)
      (size : ℕ) (j : ObjectReference)
      → let to = ctx.alloc_copy from size 8 0 semantics s.vm in
        maybe_givtbl build up ctx from s.memory s.vm ≡ ok (some g)
        → object_size build s.memory suffix_size from ≡ ok size
        → s.moved_givtbl.status ≡ free
        → 0 < to.0
        → to.0 + 8 < 2 ^ 64
        → up.get_original_givtbl (to.0 + 8) (ctx.post_copy (to.0 + 8) size semantics to.1) ≡ 0
        → IsHashMap s.moved_givtbl.value
        → (s' : CopyState W) × (copy build up ctx suffix_size semantics from s ≡ ok (to.0 + 8, s'))
          × (get_givtbl up (to.0 + 8) s'.moved_givtbl s'.vm ≡ ok g)
          × (HashMap.get s'.moved_givtbl.value j ≡ (
              if to.0 + 8 == j
              then some (record { old_objref = from; gen_ivtbl = g })
              else HashMap.get s.moved_givtbl.value j))
          × IsHashMap s'.moved_givtbl.value
  unfolding copy
  copy-keeps_givtbl suffix_size semantics from s g size j eg es unlocked positive high fresh once =
      let to = ctx.alloc_copy from size 8 0 semantics s.vm in
      let wraps : (to.0 + 8) % 2 ^ 64 ≡ to.0 + 8 = omega arith in
      let entry : MovedGivtblEntry = record { old_objref = from; gen_ivtbl = g } in
      (
        record {
          vm = ctx.post_copy (to.0 + 8) size semantics to.1;
          memory =
              clear_old_copy build up ctx (obj_start from) size
                (copy_nonoverlapping (obj_start from) to.0 size s.memory);
          moved_givtbl = record {
            status = free;
            value = HashMap.insert s.moved_givtbl.value (to.0 + 8) entry;
          };
        },
        rw
            (
              eg,
              es,
              not_zero to.0 positive,
              debug_assert-true build assertion,
              wraps,
              record_givtbl-some g from (to.0 + 8) s.moved_givtbl unlocked,
            )
            refl,
        get_givtbl-insert g from (to.0 + 8) s.moved_givtbl.value
            (ctx.post_copy (to.0 + 8) size semantics to.1) fresh,
        get-insert s.moved_givtbl.value (to.0 + 8) entry j,
        insert-IsHashMap s.moved_givtbl.value (to.0 + 8) entry once,
      )

  record_givtbl-noted :
      (t : Option Address) (from to_obj : ObjectReference) (m m' : Mutex MovedGivtbl)
      → m.status ≡ free
      → record_givtbl build up ctx t from to_obj m ≡ ok m'
      → m' ≡ noted t from to_obj m
  unfolding record_givtbl
  record_givtbl-noted none from to_obj m m' h e = sym (ok-injective e)
  record_givtbl-noted (some g) from to_obj m m' h e = sym (ok-injective (rw h at e))

  pub copy-noted :
      (suffix_size semantics : ℕ) (from to_obj : ObjectReference) (s s' : CopyState W)
      → s.moved_givtbl.status ≡ free
      → copy build up ctx suffix_size semantics from s ≡ ok (to_obj, s')
      → s'.moved_givtbl ≡ noted (table_of up s.memory s.vm from) from to_obj s.moved_givtbl
  unfolding copy
  copy-noted suffix_size semantics from to_obj s s' h e =
      let (t, et, e₁) = bind-ok (maybe_givtbl build up ctx from s.memory s.vm) _ (to_obj, s') e in
      let (size, es, e₂) =
        bind-ok (object_size build s.memory suffix_size from) _ (to_obj, s') e₁ in
      let to = ctx.alloc_copy from size min_obj_align 0 semantics s.vm in
      let (u, eu, e₃) =
        bind-ok (debug_assert build (not (to.0 == 0)) assertion) _ (to_obj, s') e₂ in
      let (m, em, e₄) =
        bind-ok (record_givtbl build up ctx t from (address_add to.0 objref_offset) s.moved_givtbl)
          _ (to_obj, s') e₃ in
      let pe = ok-injective e₄ in
      sym (ap (λ r. r.1.moved_givtbl) pe)
      ∙ record_givtbl-noted t from (address_add to.0 objref_offset) s.moved_givtbl m h em
      ∙ ap (λ o. noted t from o s.moved_givtbl) (ap (λ r. r.0) pe)
      ∙ ap (λ x. noted x from to_obj s.moved_givtbl) (maybe_givtbl-table_of from s.memory s.vm t et)
