-- ===== src/Cycle/Moves.antt =====
-- mmtk/src/object_model.rs and weak_proc.rs: from the copying of many objects to the packet that
-- reports the moved generic instance variable tables to CRuby.
use mathlib.Core.List.{Permᴰ, append_assoc, append-nil}
use mmtk_ruby.Base.{
  ℕ, subst, ◌≡◌, refl, sym, ap, ◌∙◌, arith, true, false, ◌==◌, List, [], ◌∷◌, ◌++◌, Option, none,
  some, Outcome, ok, ◌>>=◌, bind-ok, ok-injective, Mutex, free, unlocked,
}
use mmtk_ruby.Base.HashMap
use mmtk_ruby.Base.HashMap.{insert-fresh, keys-append}
use mmtk_ruby.Base.HashSet.{contains, contains-differs, IsHashSet}
use mmtk_ruby.Build.{Build}
use mmtk_ruby.Vm.{Address, ObjectReference, RubyUpcalls, Core}
use mmtk_ruby.Givtbl.{MovedGivtbl, MovedGivtblEntry}
use mmtk_ruby.Object.Copy.{CopyContext, CopyState, copy}
use mmtk_ruby.Object.Copy.Givtbls.{table_of, noted, copy-noted}
use mmtk_ruby.Packet.{update_generic_iv_tbl}
use mmtk_ruby.Abi.Tls.{GcThreadTls, IsIdle}
use mmtk_ruby.Weak.Processors as Processors
use mmtk_ruby.Weak.Processors.Laws.{VisitsObjects, forwarded, moved, do_work-forwarded}

-- What CRuby must be told of an object that has a table.
abbrev pub due_for : Option Address → (from to_obj : ObjectReference) → MovedGivtbl → MovedGivtbl
due_for (some g) from to_obj rest = (to_obj, record { old_objref = from; gen_ivtbl = g }) ∷ rest
due_for none from to_obj rest = rest

noted-due :
    (t : Option Address) (from to_obj : ObjectReference) (m : Mutex MovedGivtbl)
    (rest : MovedGivtbl)
    → contains (HashMap.keys m.value) to_obj ≡ false
    → (noted t from to_obj m).value ++ rest ≡ m.value ++ due_for t from to_obj rest
noted-due none from to_obj m rest h = refl
noted-due (some g) from to_obj m rest h =
    let entry : MovedGivtblEntry = record { old_objref = from; gen_ivtbl = g } in
    rw (insert-fresh m.value to_obj entry h) (append_assoc m.value ((to_obj, entry) ∷ []) rest)

noted-free :
    (t : Option Address) (from to_obj : ObjectReference) (m : Mutex MovedGivtbl)
    → m.status ≡ free
    → (noted t from to_obj m).status ≡ free
noted-free none from to_obj m h = h
noted-free (some g) from to_obj m h = refl

-- A reference that is neither new nor in the map stays out of it.
noted-absent :
    (t : Option Address) (from to_obj x : ObjectReference) (m : Mutex MovedGivtbl)
    → contains (HashMap.keys m.value) to_obj ≡ false
    → contains (HashMap.keys m.value) x ≡ false
    → (to_obj == x) ≡ false
    → contains (HashMap.keys (noted t from to_obj m).value) x ≡ false
unfolding contains
noted-absent none from to_obj x m h k n = k
noted-absent (some g) from to_obj x m h k n =
    let entry : MovedGivtblEntry = record { old_objref = from; gen_ivtbl = g } in
    rw (insert-fresh m.value to_obj entry h, keys-append m.value ((to_obj, entry) ∷ []) x, k, n)
      refl

module _ {W : Type 0} (build : Build) (up : RubyUpcalls W) (ctx : CopyContext W)
    (suffix_size semantics : ℕ) where
  abbrev copy_one : ObjectReference → CopyState W → Outcome (ObjectReference × CopyState W)
  copy_one from s = copy build up ctx suffix_size semantics from s

  -- Calls of `copy` in turn: the new references, and the state.
  unfoldable pub copy_each :
      List ObjectReference → CopyState W → Outcome (List ObjectReference × CopyState W)
  copy_each [] s = ok ([], s)
  copy_each (from ∷ objects) s = do
    r ← copy_one from s
    rest ← copy_each objects r.1
    ok (r.0 ∷ rest.0, rest.1)

  due_next :
      Option Address
      → ObjectReference
      → (CopyState W → MovedGivtbl)
      → Outcome (ObjectReference × CopyState W)
      → MovedGivtbl
  due_next t from rest (ok r) = due_for t from r.0 (rest r.1)
  due_next t from rest _ = []

  -- The objects that have a table when they are copied, with their new and old references.
  pub due : List ObjectReference → CopyState W → MovedGivtbl
  unfolding due_next
  due [] s = []
  due (from ∷ objects) s =
      due_next (table_of up s.memory s.vm from) from (due objects) (copy_one from s)

  pub due-cons :
      (from : ObjectReference) (objects : List ObjectReference) (s s₁ : CopyState W)
      (to_obj : ObjectReference)
      → copy_one from s ≡ ok (to_obj, s₁)
      → due (from ∷ objects) s
        ≡ due_for (table_of up s.memory s.vm from) from to_obj (due objects s₁)
  unfolding due
  due-cons from objects s s₁ to_obj e =
      ap (due_next (table_of up s.memory s.vm from) from (due objects)) e

  -- New references that are not in the map.
  Fresh : List ObjectReference → CopyState W → Type 0
  Fresh news s =
      IsHashSet news
      × ((x : ObjectReference)
          → contains news x ≡ true
          → contains (HashMap.keys s.moved_givtbl.value) x ≡ false)

  Fresh-step :
      (from to_obj : ObjectReference) (news : List ObjectReference) (s s₁ : CopyState W)
      → s.moved_givtbl.status ≡ free
      → copy_one from s ≡ ok (to_obj, s₁)
      → Fresh (to_obj ∷ news) s
      → Fresh news s₁
  unfolding Fresh contains
  Fresh-step from to_obj news s s₁ h e f = (
    f.0.1,
    λ x k. rw (copy-noted build up ctx suffix_size semantics from to_obj s s₁ h e) (
        noted-absent (table_of up s.memory s.vm from) from to_obj x s.moved_givtbl
          (f.1 to_obj (ground arith)) (f.1 x (ground arith))
          (contains-differs news to_obj x f.0.0 k)),
  )

  contains_self : (x : ObjectReference) (xs : List ObjectReference) → contains (x ∷ xs) x ≡ true
  unfolding contains
  contains_self x xs = ground arith

  copy_each-due :
      (objects news : List ObjectReference) (s s' : CopyState W)
      → s.moved_givtbl.status ≡ free
      → copy_each objects s ≡ ok (news, s')
      → Fresh news s
      → s'.moved_givtbl ≡ unlocked (s.moved_givtbl.value ++ due objects s)
  unfolding copy_each due Fresh
  copy_each-due [] news s s' h e f =
      ap (λ q. q.1.moved_givtbl) (sym (ok-injective e))
      ∙ ap (λ st. record { status = st; value = s.moved_givtbl.value }) h
      ∙ ap unlocked (sym (append-nil s.moved_givtbl.value))
  copy_each-due (from ∷ objects) news s s' h e f =
      let (r, er, e₁) = bind-ok (copy_one from s) _ (news, s') e in
      let (rest, et, e₂) = bind-ok (copy_each objects r.1) _ (news, s') e₁ in
      let f' : Fresh (r.0 ∷ rest.0) s =
        subst (λ ns. Fresh ns s) (sym (ap (λ q. q.0) (ok-injective e₂))) f in
      let moved₁ = copy-noted build up ctx suffix_size semantics from r.0 s r.1 h er in
      let t = table_of up s.memory s.vm from in
      let free₁ : r.1.moved_givtbl.status ≡ free =
        rw moved₁ (noted-free t from r.0 s.moved_givtbl h) in
      ap (λ q. q.1.moved_givtbl) (sym (ok-injective e₂))
      ∙ copy_each-due objects rest.0 r.1 rest.1 free₁ et (Fresh-step from r.0 rest.0 s r.1 h er f')
      ∙ ap (λ m. unlocked (m.value ++ due objects r.1)) moved₁
      ∙ ap unlocked (
          noted-due t from r.0 s.moved_givtbl (due objects r.1)
            (f'.1 r.0 (contains_self r.0 rest.0))
          ∙ ap (λ d. s.moved_givtbl.value ++ d) (sym (due-cons from objects s r.1 r.0 er)))

  pub due-nil : (s : CopyState W) → due [] s ≡ []
  unfolding due
  due-nil s = refl

  -- If copies of some objects in turn have succeeded, with new references that all differ, and the
  -- map of moved tables was empty and not locked: the packet for the generic instance variables,
  -- run afterwards on an idle worker in whatever state CRuby then is, tells CRuby the old and the new
  -- reference of each object whose flags said, when it was copied, that it had a table, once, in some
  -- order, and of no other; then it runs CRuby's cleaning code, in which each MMTk object that is visited is answered
  -- by its forwarded reference, and leaves the map empty and the worker idle.
  pub copies-reported :
      (core : Core W) (objects news : List ObjectReference) (s s' : CopyState W)
      (order : MovedGivtbl → MovedGivtbl) (tls : GcThreadTls (Unit {0}) W) (w : W)
      → s.moved_givtbl ≡ unlocked []
      → copy_each objects s ≡ ok (news, s')
      → IsHashSet news
      → ((entries : MovedGivtbl) → Permᴰ (order entries) entries)
      → IsIdle tls
      → VisitsObjects core (up.cleanup_generic_iv_tbl (moved up (order (due objects s)) w))
      → (entries : MovedGivtbl) × Permᴰ entries (due objects s)
        × (Processors.do_work build core up update_generic_iv_tbl order (some tls) s'.moved_givtbl w
            ≡ ok
                (unlocked [], tls, forwarded core (up.cleanup_generic_iv_tbl (moved up entries w))))
  unfolding Fresh contains
  copies-reported core objects news s s' order tls w empty e distinct perm idle visits =
      let fresh : Fresh news s = (distinct, λ x k. rw empty refl) in
      let map_after : s'.moved_givtbl ≡ unlocked (due objects s) =
        copy_each-due objects news s s' (ap (λ m. m.status) empty) e fresh
        ∙ ap (λ m. unlocked (m.value ++ due objects s)) empty in
      rw map_after (
        do_work-forwarded build core up update_generic_iv_tbl order tls (unlocked (due objects s)) w
          perm idle refl visits)
