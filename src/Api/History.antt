-- ===== src/Api/History.antt =====
-- mmtk/src/api.rs: requests on the binding in any order, and what a caller may assume of them: an
-- ideal binding that has no locks, no hash tables and no cache.
mod Refines
mod Tests
use mmtk_ruby.Base.{
  ℕ, ◌≡◌, ◌⊎◌, Bool, true, false, not, ◌==◌, ◌||◌, member, List, [], ◌∷◌, ◌++◌, Option, none, some,
  Outcome, ok, ◌>>=◌, Mutex, free,
}
use mmtk_ruby.Base.HashSet
use mmtk_ruby.Base.HashSet.{HashSet}
use mmtk_ruby.Vm.{ObjectReference}
use mmtk_ruby.Binding.{RubyBinding}
use mmtk_ruby.Globals.{Globals}
use mmtk_ruby.Api.{
  mmtk_enable_collection, mmtk_disable_collection, mmtk_is_collection_enabled, mmtk_plan_name,
  mmtk_add_obj_free_candidate, mmtk_add_obj_free_candidates, mmtk_get_all_obj_free_candidates,
  mmtk_register_ppp, mmtk_register_ppps, mmtk_register_wb_unprotected_object,
  mmtk_is_object_wb_unprotected,
}

-- The functions of the API that read or write the globals, but for initialisation and forking.
pub data Request : Type 0 where
  enable_collection : Request
  disable_collection : Request
  is_collection_enabled : Request
  plan_name : Request
  add_candidate : ObjectReference → Request
  add_candidates : List ObjectReference → Request
  get_all_candidates : Request
  register_ppp : ObjectReference → Request
  register_ppps : List ObjectReference → Request
  register_wb_unprotected : ObjectReference → Request
  is_wb_unprotected : ObjectReference → Request

pub data Reply : Type 0 where
  done : Reply
  flag : Bool → Reply
  text : List ℕ → Reply
  objects : List ObjectReference → Reply

quiet : Outcome (Globals × Unit {0}) → Outcome (Globals × Reply)
quiet m = m >>= λ r. ok (r.0, done)

-- `name` is the name of the plan.
module _ (name : List ℕ) where
  pub answer : Request → Globals → Outcome (Globals × Reply)
  unfolding quiet
  answer enable_collection g = ok (mmtk_enable_collection g, done)
  answer disable_collection g = ok (mmtk_disable_collection g, done)
  answer is_collection_enabled g = ok (g, flag (mmtk_is_collection_enabled g))
  answer plan_name g = mmtk_plan_name name g >>= λ r. ok (r.0, text r.1)
  answer (add_candidate o) g = quiet (mmtk_add_obj_free_candidate o g)
  answer (add_candidates os) g = quiet (mmtk_add_obj_free_candidates os g)
  answer get_all_candidates g = mmtk_get_all_obj_free_candidates g >>= λ r. ok (r.0, objects r.1)
  answer (register_ppp o) g = quiet (mmtk_register_ppp o g)
  answer (register_ppps os) g = quiet (mmtk_register_ppps os g)
  answer (register_wb_unprotected o) g = quiet (mmtk_register_wb_unprotected_object o g)
  answer (is_wb_unprotected o) g = mmtk_is_object_wb_unprotected o g >>= λ r. ok (g, flag r)

  -- The replies to requests in turn.
  pub serve : List Request → Globals → Outcome (Globals × List Reply)
  serve [] g = ok (g, [])
  serve (q ∷ qs) g = do r ← answer q g; rest ← serve qs r.0; ok (rest.0, r.1 ∷ rest.1)

-- What a caller may assume.
pub record Ideal : Type 0 where
  pub enabled : Bool
  pub candidates : List ObjectReference
  pub ppps : List ObjectReference
  pub unprotected : ObjectReference → Bool

abbrev pub untouched : Ideal
untouched = record { enabled = false; candidates = []; ppps = []; unprotected = λ o. false }

module _ (name : List ℕ) where
  abbrev pub ideal_answer : Request → Ideal → Ideal × Reply
  ideal_answer enable_collection i = (record i { enabled = true }, done)
  ideal_answer disable_collection i = (record i { enabled = false }, done)
  ideal_answer is_collection_enabled i = (i, flag i.enabled)
  ideal_answer plan_name i = (i, text name)
  ideal_answer (add_candidate o) i = (record i { candidates = i.candidates ++ o ∷ [] }, done)
  ideal_answer (add_candidates os) i = (record i { candidates = i.candidates ++ os }, done)
  ideal_answer get_all_candidates i = (record i { candidates = [] }, objects i.candidates)
  ideal_answer (register_ppp o) i = (record i { ppps = i.ppps ++ o ∷ [] }, done)
  ideal_answer (register_ppps os) i = (record i { ppps = i.ppps ++ os }, done)
  ideal_answer (register_wb_unprotected o) i =
      (record i { unprotected = λ x. o == x || i.unprotected x }, done)
  ideal_answer (is_wb_unprotected o) i = (i, flag (i.unprotected o))

  abbrev pub ideal_serve : List Request → Ideal → Ideal × List Reply
  ideal_serve [] i = (i, [])
  ideal_serve (q ∷ qs) i =
      let r = ideal_answer q i in let rest = ideal_serve qs r.0 in (rest.0, r.1 ∷ rest.1)

-- A mutex that nobody holds, with its value.
pub record Holds {ℓ} {A : Type ℓ} (m : Mutex A) (a : A) : Type ℓ where
  pub is_free : m.status ≡ free
  pub same : m.value ≡ a

-- A plan name that is cached is the right one.
pub record HoldsName (m : Mutex (Option (List ℕ))) (name : List ℕ) : Type 0 where
  pub is_free : m.status ≡ free
  pub cached : (m.value ≡ none) ⊎ (m.value ≡ some name)

-- A set and its members, in whatever order it keeps them.
pub record HoldsSet (m : Mutex HashSet) (members : ObjectReference → Bool) : Type 0 where
  pub is_free : m.status ≡ free
  pub same : (o : ObjectReference) → HashSet.contains m.value o ≡ members o

-- A binding with no lock held, and the ideal binding that it stands for.
pub record Stands (name : List ℕ) (gc_enabled : Bool) (b : RubyBinding) (i : Ideal) : Type 0 where
  pub enabled : gc_enabled ≡ i.enabled
  pub plan_name : HoldsName b.plan_name name
  pub candidates : Holds b.weak_proc.obj_free_candidates i.candidates
  pub ppps : Holds b.ppp_registry.ppps i.ppps
  pub unprotected : HoldsSet b.wb_unprotected_objects i.unprotected

pub record Represents (name : List ℕ) (g : Globals) (i : Ideal) : Type 0 where
  pub bound : RubyBinding
  pub is_bound : g.binding_cell ≡ some bound
  pub stands : Stands name g.gc_enabled bound i
