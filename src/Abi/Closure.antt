-- ===== src/Abi/Closure.antt =====
-- mmtk/src/abi.rs: `ObjectClosure`, through which CRuby code visits objects.
-- `S` is what the Rust closure captures by mutable reference.
pub mod Laws
mod Tests
use mmtk_ruby.Base.{
  ℕ, Bool, true, false, Option, none, some, Outcome, ok, panic, ◌>>=◌, ◌>>◌, Panic, closure_not_set,
  closure_reentered, assert,
}
use mmtk_ruby.Build.{Build, debug_assert}
use mmtk_ruby.Vm.{ObjectReference, Script, finish, visit}

-- The Rust closure: from the captured state, the object and the `pin` flag, the reference to hand
-- back.
abbrev pub VisitObject : Type 0 → Type 0 → Type 0
VisitObject S W = S → W → ObjectReference → Bool → Outcome (ObjectReference × S × W)

pub data ObjectClosureFunction : Type 0 where
  c_function_unregistered : ObjectClosureFunction
  c_function_registered : ObjectClosureFunction

-- `rust_closure` is a pointer, null or to a `VisitObject`.
pub record ObjectClosure (S W : Type 0) : Type 0 where
  pub c_function : ObjectClosureFunction
  pub rust_closure : Option (VisitObject S W)

abbrev pub is_unregistered : ObjectClosureFunction → Bool
is_unregistered c_function_unregistered = true
is_unregistered c_function_registered = false

module _ {S W : Type 0} where
  -- `impl Default`
  abbrev pub default : ObjectClosure S W
  default = record { c_function = c_function_unregistered; rust_closure = none }

  -- The call that CRuby makes. A registered function with a null closure would be undefined
  -- behaviour, and is put among the panics.
  call_c_function : ObjectClosureFunction → Option (VisitObject S W) → VisitObject S W
  call_c_function c_function_registered (some visit_object) s w object pin =
      visit_object s w object pin
  call_c_function _ _ s w object pin = panic closure_not_set

  unfoldable pub call : ObjectClosure S W → VisitObject S W
  unfolding call_c_function
  call closure = call_c_function closure.c_function closure.rust_closure

  -- CRuby code under the closure that the thread has while it runs.
  unfoldable pub run_script : ObjectClosure S W → Script W → S → Outcome (S × W)
  unfolding call
  run_script closure (finish w) s = ok (s, w)
  run_script closure (visit w object pin rest) s =
      call closure s w object pin >>= λ r. run_script closure (rest r.2 r.0) r.1

  -- `f` may call CRuby under the closure, and is handed the closure by reference.
  unfoldable pub set_temporarily_and_run_code :
      {T : Type 0}
      → Build
      → VisitObject S W
      → (ObjectClosure S W → S → W → Outcome (T × ObjectClosure S W × S × W))
      → ObjectClosure S W
      → S
      → W
      → Outcome (T × ObjectClosure S W × S × W)
  set_temporarily_and_run_code build visit_object f self s w = do
    debug_assert build (is_unregistered self.c_function) closure_reentered
    r ← f (record { c_function = c_function_registered; rust_closure = some visit_object }) s w
    ok (r.0, default, r.2, r.3)

  -- The usual `f`: a call of CRuby, with no result.
  abbrev pub upcall :
      (W → Script W) → ObjectClosure S W → S → W → Outcome (Unit {0} × ObjectClosure S W × S × W)
  upcall code closure s w = run_script closure (code w) s >>= λ r. ok (tt, closure, r.0, r.1)
