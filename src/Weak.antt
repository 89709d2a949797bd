-- ===== src/Weak.antt =====
-- mmtk/src/weak_proc.rs: weak references, processed in the VMRefClosure stage.
pub mod Ranges
pub mod ObjFree
pub mod WbList
pub mod Candidates
pub mod Tables
pub mod Processors
pub mod Parallel
use mathlib.Core.Option.{get_or}
use mmtk_ruby.Base.{List, [], ◌∷◌, ◌++◌, Outcome, ok, ◌>>=◌, Mutex, unlocked, lock}
use mmtk_ruby.Vm.{ObjectReference, Core}

pub record WeakProcessor : Type 0 where
  pub obj_free_candidates : Mutex (List ObjectReference)

unfoldable pub new : WeakProcessor
new = record { obj_free_candidates = unlocked [] }

abbrev pub set_candidates : WeakProcessor → List ObjectReference → WeakProcessor
set_candidates p objects = record {
  obj_free_candidates = record { status = p.obj_free_candidates.status; value = objects };
}

pub add_obj_free_candidate : WeakProcessor → ObjectReference → Outcome WeakProcessor
add_obj_free_candidate p object = do
  candidates ← lock p.obj_free_candidates
  ok (set_candidates p (candidates ++ object ∷ []))

push_each : List ObjectReference → List ObjectReference → List ObjectReference
push_each candidates [] = candidates
push_each candidates (object ∷ objects) = push_each (candidates ++ object ∷ []) objects

pub add_obj_free_candidates : WeakProcessor → List ObjectReference → Outcome WeakProcessor
unfolding push_each
add_obj_free_candidates p objects = do
  candidates ← lock p.obj_free_candidates
  ok (set_candidates p (push_each candidates objects))

-- `std::mem::take` leaves an empty vector behind.
pub get_all_obj_free_candidates : WeakProcessor → Outcome (WeakProcessor × List ObjectReference)
get_all_obj_free_candidates p = do
  candidates ← lock p.obj_free_candidates
  ok (set_candidates p [], candidates)

-- `Forwardable::forward`
abbrev pub forward : {W : Type 0} → Core W → W → ObjectReference → ObjectReference
forward core w object = get_or (core.get_forwarded_object w object) object
