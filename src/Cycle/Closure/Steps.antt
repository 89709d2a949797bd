-- ===== src/Cycle/Closure/Steps.antt =====
-- mmtk/src/weak_proc.rs: the packets of `process_weak_stuff` one by one.
use mathlib.Core.List.{Permᴰ, append-nil, append_assoc}
use mmtk_ruby.Base.{
  Bool, ℕ, ◌≡◌, refl, ◌∙◌, sym, ap, ok-injective, bind-ok, List, [], ◌∷◌, ◌++◌, map, ok, free,
  unlocked,
}
use mmtk_ruby.Base.HashSet.{any}
use mmtk_ruby.Build.{Build}
use mmtk_ruby.Vm.{Address, ObjectReference, Core, RubyUpcalls}
use mmtk_ruby.Givtbl.{MovedGivtbl}
use mmtk_ruby.Packet.{
  Packet, TableProcessor, update_generic_iv_tbl, update_finalizer_and_obj_id_tables,
  update_overloaded_cme_table, update_ci_table, table_processor,
}
use mmtk_ruby.Abi.Tls.{IsIdle}
use mmtk_ruby.Base.HashSet.{HashSet}
use mmtk_ruby.Weak.WbList.{goes_to}
use mmtk_ruby.Weak.ObjFree.Laws.{SameHeap, free_all}
use mmtk_ruby.Weak.Processors.Laws.{
  VisitsObjects, forwarded, moved, cleaner, before, left, do_work-forwarded,
}
use mmtk_ruby.Cycle.Closure.{Closing, run_packet, run_packets}

-- What the code of CRuby for these packets leaves alone, and what it asks for.
pub record Behaves {W : Type 0} (core : Core W) (up : RubyUpcalls W) : Type 0 where
  pub frees : (o : ObjectReference) (w : W) → SameHeap core w (up.call_obj_free o w)
  pub moves : (o n : ObjectReference) (w : W) → SameHeap core w (up.move_givtbl o n w)
  pub visits : (p : TableProcessor) (w : W) → VisitsObjects core (cleaner up p w)
  pub cleans : (p : TableProcessor) (w : W) → SameHeap core w (forwarded core (cleaner up p w))
  pub entries :
      (table : Address) (begin end : ℕ) (keys values forward : Bool) (w : W)
      → SameHeap core w (up.st_update_entries_range table begin end keys values forward w).1
  pub bins :
      (table : Address) (begin end : ℕ) (w : W)
      → SameHeap core w (up.st_update_bins_range table begin end w).1

-- No lock is held, and the worker is idle.
pub record IsQuiet {W : Type 0} (s : Closing W) : Type 0 where
  pub idle : IsIdle s.tls
  pub candidates_free : s.weak_proc.obj_free_candidates.status ≡ free
  pub moved_free : s.moved_givtbl.status ≡ free
  pub objects_free : s.wb_unprotected.status ≡ free

module _ {W : Type 0} (core : Core W) where
  pub SameHeap-trans : {a b c : W} → SameHeap core a b → SameHeap core b c → SameHeap core a c
  SameHeap-trans h k o = ((k o).0 ∙ (h o).0, (k o).1 ∙ (h o).1)

  pub goes_to_same :
      {a b : W} (y : ObjectReference) (xs : List ObjectReference)
      → SameHeap core a b
      → any (goes_to core b y) xs ≡ any (goes_to core a y) xs
  goes_to_same y [] h = refl
  goes_to_same y (x ∷ xs) h = rw ((h x).0, (h x).1, goes_to_same y xs h) refl

module _ {W : Type 0} (core : Core W) (up : RubyUpcalls W) (calm : Behaves core up) where
  pub free_all-SameHeap :
      (objects : List ObjectReference) (w : W) → SameHeap core w (free_all up objects w)
  free_all-SameHeap [] w = λ o. (refl, refl)
  free_all-SameHeap (object ∷ objects) w =
      SameHeap-trans core (calm.frees object w)
        (free_all-SameHeap objects (up.call_obj_free object w))

  moved-SameHeap : (entries : MovedGivtbl) (w : W) → SameHeap core w (moved up entries w)
  moved-SameHeap [] w = λ o. (refl, refl)
  moved-SameHeap ((new_objref, entry) ∷ entries) w =
      SameHeap-trans core (calm.moves entry.old_objref new_objref w)
        (moved-SameHeap entries (up.move_givtbl entry.old_objref new_objref w))

  pub before-SameHeap :
      (p : TableProcessor) (entries : MovedGivtbl) (w : W) → SameHeap core w (before up p entries w)
  before-SameHeap update_generic_iv_tbl entries w = moved-SameHeap entries w
  before-SameHeap update_finalizer_and_obj_id_tables entries w = λ o. (refl, refl)
  before-SameHeap update_overloaded_cme_table entries w = λ o. (refl, refl)
  before-SameHeap update_ci_table entries w = λ o. (refl, refl)

module _ {W : Type 0} (build : Build) (core : Core W) (up : RubyUpcalls W)
    (drain : MovedGivtbl → MovedGivtbl) (order : HashSet → List ObjectReference) where
  pub run_packets-append :
      (ps qs : List Packet) (s s₁ s₂ : Closing W) (a b : List Packet)
      → run_packets build core up drain order ps s ≡ ok (a, s₁)
      → run_packets build core up drain order qs s₁ ≡ ok (b, s₂)
      → run_packets build core up drain order (ps ++ qs) s ≡ ok (a ++ b, s₂)
  unfolding run_packets
  run_packets-append [] qs s s₁ s₂ a b e k =
      let same = ok-injective e in
      ap (λ x. run_packets build core up drain order qs x) (ap (λ r. r.1) same)
      ∙ k
      ∙ ap (λ x. ok (x ++ b, s₂)) (ap (λ r. r.0) same)
  run_packets-append (p ∷ ps) qs s s₁ s₂ a b e k =
      let (r, er, e₁) = bind-ok (run_packet build core up drain order p s) _ (a, s₁) e in
      let (rest, et, e₂) = bind-ok (run_packets build core up drain order ps r.1) _ (a, s₁) e₁ in
      let same = ok-injective e₂ in
      let k' : run_packets build core up drain order qs rest.1 ≡ ok (b, s₂) =
        ap (λ x. run_packets build core up drain order qs x) (ap (λ r. r.1) same) ∙ k in
      rw (er, run_packets-append ps qs r.1 rest.1 s₂ rest.0 b et k')
        (ap ok (
          ap (λ x. (x, s₂))
            (sym (append_assoc r.0 rest.0 b) ∙ ap (λ x. x ++ b) (ap (λ q. q.0) same))))

  -- Three groups of packets, the first of which releases nothing.
  pub run_three :
      (ps qs rs : List Packet) (s s₁ s₂ s₃ : Closing W) (b c : List Packet)
      → run_packets build core up drain order ps s ≡ ok ([], s₁)
      → run_packets build core up drain order qs s₁ ≡ ok (b, s₂)
      → run_packets build core up drain order rs s₂ ≡ ok (c, s₃)
      → run_packets build core up drain order (ps ++ (qs ++ (rs ++ []))) s ≡ ok (b ++ c, s₃)
  run_three ps qs rs s s₁ s₂ s₃ b c e₁ e₂ e₃ =
      ap (λ x. run_packets build core up drain order (ps ++ (qs ++ x)) s) (append-nil rs)
      ∙ run_packets-append ps (qs ++ rs) s s₁ s₃ [] (b ++ c) e₁
          (run_packets-append qs rs s₁ s₂ s₃ b c e₂ e₃)

  -- The entries that are left when some packets have run.
  abbrev pub left_all : List TableProcessor → MovedGivtbl → MovedGivtbl
  left_all [] m = m
  left_all (p ∷ ps) m = left_all ps (left p m)

  pub run_processors :
      Behaves core up
      → ((entries : MovedGivtbl) → Permᴰ (drain entries) entries)
      → (ps : List TableProcessor) (s : Closing W) → IsIdle s.tls
      → s.moved_givtbl.status ≡ free
      → (w' : W) × (run_packets build core up drain order (map table_processor ps) s
          ≡ ok (
            [],
            record s { moved_givtbl = unlocked (left_all ps s.moved_givtbl.value); vm = w' },
          ))
        × SameHeap core s.vm w'
  unfolding run_packets run_packet
  run_processors calm perm [] s idle unlocked_now = (
    s.vm,
    ap
        (λ st.
          ok ([], record s { moved_givtbl = record { status = st; value = s.moved_givtbl.value } }))
        unlocked_now,
    λ o. (refl, refl),
  )
  run_processors calm perm (p ∷ ps) s idle unlocked_now =
      let (entries, _, e) =
        do_work-forwarded build core up p drain s.tls s.moved_givtbl s.vm perm idle unlocked_now
          (calm.visits p (before up p (drain s.moved_givtbl.value) s.vm)) in
      let w₁ = forwarded core (cleaner up p (before up p entries s.vm)) in
      let (w', run, same) =
        run_processors calm perm ps
          (record s { moved_givtbl = unlocked (left p s.moved_givtbl.value); vm = w₁ }) idle refl in
      (
        w',
        rw (e, run) refl,
        SameHeap-trans core
            (SameHeap-trans core (before-SameHeap core up calm p entries s.vm)
              (calm.cleans p (before up p entries s.vm)))
            same,
      )
