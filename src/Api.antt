-- ===== src/Api.antt =====
-- mmtk/src/api.rs: the functions that C code calls. Api/Passed has those that pass a call on to
-- mmtk-core, and Api/Builder those on an `MMTKBuilder`.
mod Builder
mod Manager
mod Passed
mod History
mod Laws
mod Tests
use mmtk_ruby.Base.{
  ℕ, ◌%◌, max, Bool, true, false, not, ◌==◌, List, Option, none, some, Outcome, ok, panic, ◌>>=◌,
  ◌>>◌, already_initialized, assertion, length,
}
use mmtk_ruby.Build.{Build, debug_assert}
use mmtk_ruby.Vm.{Address, ObjectReference, Core, RubyUpcalls}
use mmtk_ruby.Abi.RawVec.{RawVecOfObjRef, Buffers, into_vec, drop_vec}
use mmtk_ruby.Ppp as Ppp
use mmtk_ruby.Weak as Weak
use mmtk_ruby.Object as Object
use mmtk_ruby.Object.{HiddenHeader}
use mmtk_ruby.Binding as Binding
use mmtk_ruby.Binding.{EnvVar, RubyBinding, RubyBindingOptions}
use mmtk_ruby.Globals.{Globals, set_panic_hook, binding}

set_binding : Option RubyBinding → RubyBinding → Globals → Outcome Globals
set_binding none b g = ok (record g { binding_cell = some b })
set_binding (some old) b g = panic already_initialized

-- `mmtk` is the address of the instance that `mmtk_init` builds.
pub mmtk_init_binding :
    (env : EnvVar → Option (List ℕ)) → RubyBindingOptions → (mmtk : ℕ) → Globals → Outcome Globals
unfolding set_binding
mmtk_init_binding env options mmtk g =
    let hooked = set_panic_hook g in
    let (b, suffix_size) = Binding.new mmtk options env in
    set_binding hooked.binding_cell b (record hooked { suffix_size = suffix_size })

-- `memory_manager::alloc` is the function `alloc`.
pub mmtk_alloc :
    {W : Type 0}
    → (min_object_size : ℕ) → (alloc : Address → ℕ → ℕ → ℕ → ℕ → W → Address × W)
    → (mutator size align offset semantics : ℕ) → W
    → Address × W
mmtk_alloc min_object_size alloc mutator size align offset semantics w =
    let clamped_size = max size min_object_size in
    alloc mutator clamped_size align offset semantics w

pub mmtk_will_never_move : {W : Type 0} → Core W → ObjectReference → W → Bool
mmtk_will_never_move core object w = not (core.is_movable w object)

pub mmtk_enable_collection : Globals → Globals
mmtk_enable_collection g = record g { gc_enabled = true }

pub mmtk_disable_collection : Globals → Globals
mmtk_disable_collection g = record g { gc_enabled = false }

pub mmtk_is_collection_enabled : Globals → Bool
mmtk_is_collection_enabled g = g.gc_enabled

-- A null `NullableObjectReference` is zero.
pub mmtk_get_forwarded_object : {W : Type 0} → Core W → ObjectReference → W → ℕ
mmtk_get_forwarded_object core object w = nullable (core.get_forwarded_object w object)
  where
    nullable : Option ObjectReference → ℕ
    nullable none = 0
    nullable (some o) = o

pub mmtk_is_mmtk_object : {W : Type 0} → Build → Core W → Address → W → Outcome Bool
mmtk_is_mmtk_object build core addr w = do
  debug_assert build (not (addr == 0)) assertion
  debug_assert build (addr % core.vo_bit_region_size == 0) assertion
  ok (core.is_mmtk_object w addr)

-- A call on the binding that changes it, and may return something.
on_binding :
    {T : Type 0} → (RubyBinding → Outcome (RubyBinding × T)) → Globals → Outcome (Globals × T)
on_binding call g = do b ← binding g; r ← call b; ok (record g { binding_cell = some r.0 }, r.1)

pub mmtk_plan_name : (name : List ℕ) → Globals → Outcome (Globals × List ℕ)
unfolding on_binding
mmtk_plan_name name = on_binding (λ b. Binding.get_plan_name_c name b >>= λ r. ok (r.1, r.0))

pub mmtk_add_obj_free_candidate : ObjectReference → Globals → Outcome (Globals × Unit {0})
unfolding on_binding
mmtk_add_obj_free_candidate object = on_binding (λ b. do
  p ← Weak.add_obj_free_candidate b.weak_proc object
  ok (record b { weak_proc = p }, tt))

-- The slice at `objects`, of length `len`, is a list.
pub mmtk_add_obj_free_candidates : List ObjectReference → Globals → Outcome (Globals × Unit {0})
unfolding on_binding
mmtk_add_obj_free_candidates objects = on_binding (λ b. do
  p ← Weak.add_obj_free_candidates b.weak_proc objects
  ok (record b { weak_proc = p }, tt))

-- The raw vector that C gets is the vector's three words (Abi/RawVec); here it is its objects.
pub mmtk_get_all_obj_free_candidates : Globals → Outcome (Globals × List ObjectReference)
unfolding on_binding
mmtk_get_all_obj_free_candidates = on_binding (λ b. do
  r ← Weak.get_all_obj_free_candidates b.weak_proc
  ok (record b { weak_proc = r.0 }, r.1))

pub mmtk_free_raw_vec_of_obj_ref : RawVecOfObjRef → Buffers → Buffers
mmtk_free_raw_vec_of_obj_ref raw_vec buffers = drop_vec (into_vec raw_vec) buffers

pub mmtk_register_ppp : ObjectReference → Globals → Outcome (Globals × Unit {0})
unfolding on_binding
mmtk_register_ppp object =
    on_binding
      (λ b. do r ← Ppp.register b.ppp_registry object; ok (record b { ppp_registry = r }, tt))

pub mmtk_register_ppps : List ObjectReference → Globals → Outcome (Globals × Unit {0})
unfolding on_binding
mmtk_register_ppps objects =
    on_binding
      (λ b. do r ← Ppp.register_many b.ppp_registry objects; ok (record b { ppp_registry = r }, tt))

pub mmtk_get_givtbl_during_gc :
    {W : Type 0} → RubyUpcalls W → ObjectReference → Globals → W → Outcome Address
mmtk_get_givtbl_during_gc up object g w =
    binding g >>= λ b. Object.get_givtbl up object b.moved_givtbl w

pub mmtk_register_wb_unprotected_object : ObjectReference → Globals → Outcome (Globals × Unit {0})
unfolding on_binding
mmtk_register_wb_unprotected_object object =
    on_binding (λ b. do b' ← Binding.register_wb_unprotected_object object b; ok (b', tt))

pub mmtk_is_object_wb_unprotected : ObjectReference → Globals → Outcome Bool
mmtk_is_object_wb_unprotected object g = binding g >>= Binding.is_object_wb_unprotected object

pub mmtk_hidden_header_is_sane : HiddenHeader → Bool
mmtk_hidden_header_is_sane hidden_header = Object.is_sane hidden_header
