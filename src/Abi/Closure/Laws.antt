-- ===== src/Abi/Closure/Laws.antt =====
-- mmtk/src/abi.rs: what `set_temporarily_and_run_code` does for its caller, and why it is not
-- reentrant.
use mmtk_ruby.Base.{
  if◌then◌else◌, ◌∙◌, ◌≡◌, refl, Bool, true, false, arith, some, Outcome, ok, panic, ◌>>=◌,
  closure_not_set, closure_reentered, bind_ext,
}
use mmtk_ruby.Build.{Build}
use mmtk_ruby.Vm.{ObjectReference, Script, finish, visit}
use mmtk_ruby.Abi.Closure.{
  VisitObject, ObjectClosure, c_function_registered, default, call, run_script,
  set_temporarily_and_run_code, upcall,
}

module _ {S W : Type 0} where
  -- CRuby code whose visits all go to one closure.
  unfoldable pub run_visits : VisitObject S W → Script W → S → Outcome (S × W)
  run_visits v (finish w) s = ok (s, w)
  run_visits v (visit w object pin rest) s =
      v s w object pin >>= λ r. run_visits v (rest r.2 r.0) r.1

  abbrev pub registered : VisitObject S W → ObjectClosure S W
  registered v = record { c_function = c_function_registered; rust_closure = some v }

  pub run_script-registered :
      (v : VisitObject S W) (code : Script W) (s : S)
      → run_script (registered v) code s ≡ run_visits v code s
  unfolding run_script run_visits call
  run_script-registered v (finish w) s = refl
  run_script-registered v (visit w object pin rest) s =
      bind_ext (v s w object pin) _ _ (λ r. run_script-registered v (rest r.2 r.0) r.1)

  -- Called on a thread with no closure set, `set_temporarily_and_run_code` passes every visit that CRuby makes to
  -- `visit_object`, and no other; it leaves no closure set. Nothing else can panic.
  pub set_temporarily-upcall :
      (build : Build) (v : VisitObject S W) (code : W → Script W) (s : S) (w : W)
      → set_temporarily_and_run_code build v (upcall code) default s w
        ≡ (run_visits v (code w) s >>= λ r. ok (tt, default, r.0, r.1))
  unfolding set_temporarily_and_run_code
  set_temporarily-upcall build v code s w = rw (run_script-registered v (code w) s) (ground arith)

  -- Whatever the code does, the closure that it leaves is the default one.
  pub set_temporarily-default :
      {T : Type 0} (build : Build) (v : VisitObject S W)
      (f : ObjectClosure S W → S → W → Outcome (T × ObjectClosure S W × S × W))
      (self : ObjectClosure S W) (s : S) (w : W) {r : T × ObjectClosure S W × S × W}
      → set_temporarily_and_run_code build v f self s w ≡ ok r
      → r.1 ≡ default
  unfolding set_temporarily_and_run_code
  set_temporarily-default build v f self s w h = ground arith

  -- In a debug build a second use inside the first one panics at once.
  nested-debug :
      {T U : Type 0} (build : Build) (outer inner : VisitObject S W)
      (f : ObjectClosure S W → S → W → Outcome (T × ObjectClosure S W × S × W))
      (rest : T × ObjectClosure S W × S × W → Outcome (U × ObjectClosure S W × S × W)) (s : S)
      (w : W)
      → build.debug_assertions ≡ true
      → set_temporarily_and_run_code build outer
          (λ c s' w'. set_temporarily_and_run_code build inner f c s' w' >>= rest)
          default
          s
          w
        ≡ panic closure_reentered
  unfolding set_temporarily_and_run_code
  nested-debug build outer inner f rest s w h = rw h

  -- In a release build the inner use runs to its end, and the next visit for the outer one panics.
  nested-release :
      {T : Type 0} (build : Build) (outer inner : VisitObject S W)
      (f : ObjectClosure S W → S → W → Outcome (T × ObjectClosure S W × S × W))
      (object : ObjectReference) (pin : Bool) (rest : W → ObjectReference → Script W) (s : S)
      (w : W) (r : T × ObjectClosure S W × S × W)
      → build.debug_assertions ≡ false
      → f (registered inner) s w ≡ ok r
      → set_temporarily_and_run_code build outer
          (λ c s' w'. set_temporarily_and_run_code build inner f c s' w' >>= λ q.
            upcall (λ x. visit x object pin rest) q.1 q.2 q.3)
          default
          s
          w
        ≡ panic closure_not_set
  unfolding set_temporarily_and_run_code run_script
  nested-release build outer inner f object pin rest s w r h e = rw (h, e)

  -- `set_temporarily_and_run_code` is not reentrant: on a thread with no closure set at the start, a
  -- second use inside the first one, whose code succeeds, followed by a visit that CRuby makes for the
  -- first, panics in every build: at the second use with debug assertions, at the visit without.
  pub nested-panics :
      {T : Type 0} (build : Build) (outer inner : VisitObject S W)
      (f : ObjectClosure S W → S → W → Outcome (T × ObjectClosure S W × S × W))
      (object : ObjectReference) (pin : Bool) (rest : W → ObjectReference → Script W) (s : S)
      (w : W) (r : T × ObjectClosure S W × S × W)
      → f (registered inner) s w ≡ ok r
      → set_temporarily_and_run_code build outer
          (λ c s' w'. set_temporarily_and_run_code build inner f c s' w' >>= λ q.
            upcall (λ x. visit x object pin rest) q.1 q.2 q.3)
          default
          s
          w
        ≡ panic (if build.debug_assertions then closure_reentered else closure_not_set)
  nested-panics build outer inner f object pin rest s w r e = in_build build.debug_assertions refl
    where
      in_build :
          (b : Bool)
          → build.debug_assertions ≡ b
          → set_temporarily_and_run_code build outer
              (λ c s' w'. set_temporarily_and_run_code build inner f c s' w' >>= λ q.
                upcall (λ x. visit x object pin rest) q.1 q.2 q.3)
              default
              s
              w
            ≡ panic (if build.debug_assertions then closure_reentered else closure_not_set)
      in_build true h =
          nested-debug build outer inner f (λ q. upcall (λ x. visit x object pin rest) q.1 q.2 q.3)
            s w h
          ∙ rw h refl
      in_build false h = nested-release build outer inner f object pin rest s w r h e ∙ rw h refl
