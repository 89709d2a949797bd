-- ===== src/Weak/WbList.antt =====
-- mmtk/src/weak_proc.rs: the packet `UpdateWbUnprotectedObjectsList`.
pub mod Heap
pub mod View
mod Tests
use mathlib.Core.List.{Permᴰ}
use mmtk_ruby.Base.{
  ◌≡◌, refl, sym, ◌∙◌, Bool, true, false, ◌&&◌, ◌||◌, List, [], ◌∷◌, arith, ◌==◌, if◌then◌else◌,
  Outcome, ok, ◌>>=◌, Mutex, free, try_lock,
}
use mmtk_ruby.Base.HashSet
use mmtk_ruby.Base.HashSet.{HashSet, IsHashSet, contains-insert, insert-IsHashSet, any, any-perm}
use mmtk_ruby.Vm.{ObjectReference, Core}
use mmtk_ruby.Weak.{forward}

module _ {W : Type 0} (core : Core W) (w : W) where
  -- `for object in old_objects`
  pub update_objects : List ObjectReference → HashSet → HashSet
  update_objects [] objects = objects
  update_objects (object ∷ rest) objects = update_objects rest (
      if core.is_reachable w object
      then HashSet.insert objects (forward core w object)
      else objects)

  -- `order` is the order in which the old set is iterated over.
  pub do_work : (order : HashSet → List ObjectReference) → Mutex HashSet → Outcome (Mutex HashSet)
  unfolding update_objects
  do_work order m = do
    old_objects ← try_lock m
    ok (record { status = m.status; value = update_objects (order old_objects) [] })

  -- The objects that go to `y`.
  abbrev pub goes_to : ObjectReference → ObjectReference → Bool
  goes_to y object = core.is_reachable w object && forward core w object == y

  update_objects-contains :
      (rest : List ObjectReference) (objects : HashSet) (y : ObjectReference)
      → HashSet.contains (update_objects rest objects) y
        ≡ (HashSet.contains objects y || any (goes_to y) rest)
  unfolding update_objects
  update_objects-contains [] objects y = ground arith
  update_objects-contains (o ∷ os) objects y =
      update_objects-contains os
        (if core.is_reachable w o then HashSet.insert objects (forward core w o) else objects) y
      ∙ ground (arith, contains-insert objects (forward core w o) y)

  update_objects-IsHashSet :
      (rest : List ObjectReference) (objects : HashSet)
      → IsHashSet objects
      → IsHashSet (update_objects rest objects)
  unfolding update_objects
  update_objects-IsHashSet [] objects h = h
  update_objects-IsHashSet (o ∷ os) objects h =
      update_objects-IsHashSet os
        (if core.is_reachable w o then HashSet.insert objects (forward core w o) else objects)
        (ground (arith, insert-IsHashSet objects (forward core w o)))

  -- While nobody holds the lock, and in whatever order the set is iterated over: an object is in
  -- the new set exactly if it is where some reachable object of the old set is now, and the new set
  -- holds it once.
  pub do_work-contains :
      (order : HashSet → List ObjectReference) (m : Mutex HashSet) (y : ObjectReference)
      → ((s : HashSet) → Permᴰ (order s) s)
      → m.status ≡ free
      → (s : HashSet) × (do_work order m ≡ ok (record { status = m.status; value = s }))
        × (HashSet.contains s y ≡ any (goes_to y) m.value)
        × IsHashSet s
  unfolding do_work HashSet.contains
  do_work-contains order m y perm h = (
    update_objects (order m.value) [],
    rw h,
    update_objects-contains (order m.value) [] y ∙ any-perm (goes_to y) (perm m.value),
    update_objects-IsHashSet (order m.value) [] tt,
  )
