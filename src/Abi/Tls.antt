-- ===== src/Abi/Tls.antt =====
-- mmtk/src/abi.rs: `GCThreadTLS`, what a GC thread keeps for CRuby. A pointer to one is an `Option`,
-- `none` for null; `gc_context` is the address of the `GCWorker`.
use mmtk_ruby.Base.{
  ℕ, ◌≡◌, refl, arith, Option, none, some, ◌==◌, Outcome, ok, panic, Panic, ◌>>=◌, ◌>>◌, null_tls,
  wrong_thread_kind, closure_reentered, assert,
}
use mmtk_ruby.Build.{Build, debug_assert, debug_assert-true}
use mmtk_ruby.Vm.{Address, Script, RubyUpcalls}
use mmtk_ruby.Abi.Closure.{ObjectClosure, VisitObject, set_temporarily_and_run_code, upcall}
use mmtk_ruby.Abi.Closure
use mmtk_ruby.Abi.Closure.Laws.{registered, run_visits, run_script-registered}

abbrev pub gc_thread_kind_worker : ℕ
gc_thread_kind_worker = 1

pub record GcThreadTls (S W : Type 0) : Type 0 where
  pub kind : ℕ
  pub gc_context : Address
  pub object_closure : ObjectClosure S W

module _ {S W : Type 0} where
  new : ℕ → Address → GcThreadTls S W
  new kind gc_context = record {
    kind = kind;
    gc_context = gc_context;
    object_closure = Closure.default;
  }

  unfoldable pub for_worker : Address → GcThreadTls S W
  unfolding new
  for_worker gc_context = new gc_thread_kind_worker gc_context

  pub check_cast : Build → Option (GcThreadTls S W) → Outcome (GcThreadTls S W)
  check_cast build none = panic null_tls
  check_cast build (some tls) = do
    debug_assert build (tls.kind == gc_thread_kind_worker) wrong_thread_kind
    ok tls

  -- Transmutations of the pointer.
  abbrev pub from_vwt : Option (GcThreadTls S W) → Option (GcThreadTls S W)
  from_vwt vwt = vwt

  abbrev pub to_vwt : Option (GcThreadTls S W) → Option (GcThreadTls S W)
  to_vwt ptr = ptr

  unfoldable pub from_vwt_check : Build → Option (GcThreadTls S W) → Outcome (GcThreadTls S W)
  unfolding check_cast
  from_vwt_check build vwt = check_cast build (from_vwt vwt)

  -- `tls_at` is the memory of the TLSs; at address zero there is none.
  pub from_upcall_check :
      Build
      → RubyUpcalls W
      → (tls_at : Address → Option (GcThreadTls S W)) → W
      → Outcome (GcThreadTls S W)
  unfolding check_cast
  from_upcall_check build up tls_at w = check_cast build (tls_at (up.get_gc_thread_tls w))

  -- This assertion stands in every build.
  pub worker : GcThreadTls S W → Outcome Address
  worker tls = do assert (tls.kind == gc_thread_kind_worker) wrong_thread_kind; ok tls.gc_context

  -- The TLS of a worker passes the checks, in every build.
  pub for_worker-checks :
      (build : Build) (gc_context : Address)
      → (from_vwt_check build (some (for_worker gc_context)) ≡ ok (for_worker gc_context))
        × (worker (for_worker gc_context) ≡ ok gc_context)
  unfolding from_vwt_check for_worker worker
  for_worker-checks build gc_context = ground arith

  -- `gc_tls.object_closure.set_temporarily_and_run_code(visit_object, f)`
  unfoldable pub with_object_closure :
      {T : Type 0}
      → Build
      → VisitObject S W
      → (ObjectClosure S W → S → W → Outcome (T × ObjectClosure S W × S × W))
      → GcThreadTls S W
      → S
      → W
      → Outcome (T × GcThreadTls S W × S × W)
  with_object_closure build visit_object f tls s w = do
    r ← set_temporarily_and_run_code build visit_object f tls.object_closure s w
    ok (r.0, record tls { object_closure = r.1 }, r.2, r.3)

  -- What a TLS is between two uses of its closure.
  pub record IsIdle (tls : GcThreadTls S W) : Type 0 where
    pub is_worker : tls.kind ≡ gc_thread_kind_worker
    pub no_closure : tls.object_closure ≡ Closure.default

  pub from_vwt_check-IsIdle :
      (build : Build) (tls : GcThreadTls S W)
      → IsIdle tls
      → from_vwt_check build (some tls) ≡ ok tls
  unfolding from_vwt_check
  from_vwt_check-IsIdle build tls idle = ground arith

  pub worker-IsIdle : (tls : GcThreadTls S W) → IsIdle tls → worker tls ≡ ok tls.gc_context
  unfolding worker
  worker-IsIdle tls idle = ground arith

  -- On an idle TLS the code runs under `visit_object`, and the TLS is idle again when it is done.
  pub with_object_closure-ok :
      {T : Type 0} (build : Build) (v : VisitObject S W)
      (f : ObjectClosure S W → S → W → Outcome (T × ObjectClosure S W × S × W))
      (tls : GcThreadTls S W) (s : S) (w : W) {t : T} {c : ObjectClosure S W} {s' : S} {w' : W}
      → IsIdle tls
      → f (registered v) s w ≡ ok (t, c, s', w')
      → with_object_closure build v f tls s w ≡ ok (t, tls, s', w')
  unfolding with_object_closure set_temporarily_and_run_code
  with_object_closure-ok build v f tls s w idle e = ground (arith, idle.no_closure, e)

  pub with_object_closure-upcall :
      (build : Build) (v : VisitObject S W) (code : W → Script W) (tls : GcThreadTls S W) (s : S)
      (w : W) {s' : S} {w' : W}
      → IsIdle tls
      → run_visits v (code w) s ≡ ok (s', w')
      → with_object_closure build v (upcall code) tls s w ≡ ok (tt, tls, s', w')
  with_object_closure-upcall build v code tls s w idle e =
      with_object_closure-ok build v (upcall code) tls s w {c = registered v} idle
        (rw (run_script-registered v (code w) s, e) refl)

  -- A panic under the closure is a panic of the whole.
  pub with_object_closure-panic :
      (build : Build) (v : VisitObject S W) (code : W → Script W) (tls : GcThreadTls S W) (s : S)
      (w : W) (p : Panic)
      → IsIdle tls
      → run_visits v (code w) s ≡ panic p
      → with_object_closure build v (upcall code) tls s w ≡ panic p
  unfolding with_object_closure set_temporarily_and_run_code
  with_object_closure-panic build v code tls s w p idle e =
      rw
        (
          idle.no_closure,
          run_script-registered v (code w) s,
          e,
          debug_assert-true build closure_reentered,
        )
        refl
