-- ===== src/Weak/WbList/Heap.antt =====
-- mmtk/src/weak_proc.rs: `UpdateWbUnprotectedObjectsList` depends on the heap alone.
use mmtk_ruby.Base.{◌≡◌, refl, List, [], ◌∷◌, ok, Mutex, free, if◌then◌else◌}
use mmtk_ruby.Base.HashSet
use mmtk_ruby.Base.HashSet.{HashSet}
use mmtk_ruby.Vm.{ObjectReference, Core}
use mmtk_ruby.Weak.{forward}
use mmtk_ruby.Weak.ObjFree.Laws.{SameHeap}
use mmtk_ruby.Weak.WbList.{update_objects, do_work}

module _ {W : Type 0} (core : Core W) (w₀ w : W) (same : SameHeap core w₀ w) where
  update_objects_same :
      (rest : List ObjectReference) (objects : HashSet)
      → update_objects core w rest objects ≡ update_objects core w₀ rest objects
  unfolding update_objects
  update_objects_same [] objects = refl
  update_objects_same (o ∷ os) objects =
      rw ((same o).0, (same o).1)
        (update_objects_same os
          (if core.is_reachable w₀ o then HashSet.insert objects (forward core w₀ o) else objects))

  pub do_work_same :
      (order : HashSet → List ObjectReference) (m : Mutex HashSet)
      → m.status ≡ free
      → do_work core w order m
        ≡ ok (record { status = m.status; value = update_objects core w₀ (order m.value) [] })
  unfolding do_work
  do_work_same order m h = rw (h, update_objects_same (order m.value) []) refl
