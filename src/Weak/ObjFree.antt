-- ===== src/Weak/ObjFree.antt =====
-- mmtk/src/weak_proc.rs: the packet `ProcessObjFreeCandidates`.
pub mod Laws
mod Tests
use mmtk_ruby.Base.{Bool, List, [], ◌∷◌, ◌++◌, if◌then◌else◌, Outcome, ok, ◌>>=◌, try_lock}
use mmtk_ruby.Vm.{ObjectReference, Core, RubyUpcalls}
use mmtk_ruby.Weak.{WeakProcessor, set_candidates, forward}

module _ {W : Type 0} (core : Core W) (up : RubyUpcalls W) where
  -- One candidate: the new candidates, and CRuby's state.
  process_candidate : ObjectReference → List ObjectReference → W → List ObjectReference × W
  process_candidate object new_candidates w =
      if core.is_reachable w object
      then (new_candidates ++ forward core w object ∷ [], w)
      else (new_candidates, up.call_obj_free object w)

  process_candidates : List ObjectReference → List ObjectReference → W → List ObjectReference × W
  unfolding process_candidate
  process_candidates [] new_candidates w = (new_candidates, w)
  process_candidates (object ∷ objects) new_candidates w =
      let r = process_candidate object new_candidates w in process_candidates objects r.0 r.1

  pub do_work : WeakProcessor → W → Outcome (WeakProcessor × W)
  unfolding process_candidates
  do_work p w = do
    candidates ← try_lock p.obj_free_candidates
    let r = process_candidates candidates [] w
    ok (set_candidates p r.0, r.1)
