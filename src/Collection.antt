-- ===== src/Collection.antt =====
-- mmtk/src/collection.rs and active_plan.rs: stopping and visiting the mutators, and the life of a
-- GC worker thread.
mod Laws
mod Stop
mod Tests
use mmtk_ruby.Base.{
  ℕ, zero, suc, Bool, true, List, [], ◌∷◌, ◌++◌, Option, none, some, Outcome, ok, panic,
  unsupported, ◌>>=◌, lock,
}
use mmtk_ruby.Build.{Build}
use mmtk_ruby.Vm.{Address, Core, RubyUpcalls}
use mmtk_ruby.Packet.{Submission}
use mmtk_ruby.Abi.Tls.{GcThreadTls, for_worker}
use mmtk_ruby.Ppp.{PppRegistry, pin_children}
use mmtk_ruby.Binding.{RubyBinding}
use mmtk_ruby.Globals.{ThreadId, Globals, binding, mmtk, register_gc_thread, unregister_gc_thread}

pub is_collection_enabled : Globals → Bool
is_collection_enabled g = g.gc_enabled

-- The thread that spawns keeps the join handle.
pub push_join_handle : Bool → Globals → Outcome Globals
push_join_handle join_handle g = do
  b ← binding g
  handles ← lock b.gc_thread_join_handles
  ok (record g {
    binding_cell = some (record b {
      gc_thread_join_handles = record {
        status = b.gc_thread_join_handles.status;
        value = handles ++ join_handle ∷ [];
      };
    });
  })

module _ {W : Type 0} where
  -- `notify_mutator_ready` hands each mutator to the visitor of mmtk-core.
  visit_mutators : (Address → W → W) → List Address → W → W
  visit_mutators mutator_visitor [] w = w
  visit_mutators mutator_visitor (mutator ∷ mutators) w =
      visit_mutators mutator_visitor mutators (mutator_visitor mutator w)

  -- `tls` is the address of the TLS, and `vwt` what stands there.
  pub stop_all_mutators :
      {S : Type 0}
      → Build
      → Core W
      → RubyUpcalls W
      → Address
      → Option (GcThreadTls S W)
      → (mutator_visitor : Address → W → W) → Globals
      → W
      → Outcome (List Submission × W)
  unfolding visit_mutators
  stop_all_mutators build core up tls vwt mutator_visitor g w = do
    let stopped = up.stop_the_world tls w
    b ← binding g
    submissions ← pin_children build core vwt b.ppp_registry stopped
    ok (submissions, visit_mutators mutator_visitor (up.get_mutators stopped) stopped)

  pub resume_mutators : RubyUpcalls W → Address → W → W
  resume_mutators up tls w = up.resume_mutators tls w

  pub block_for_gc : RubyUpcalls W → Address → W → W
  block_for_gc up tls w = up.block_for_gc tls w

  pub vm_live_bytes : RubyUpcalls W → W → ℕ
  vm_live_bytes up w = up.vm_live_bytes w

  -- `VMActivePlan`
  pub number_of_mutators : RubyUpcalls W → W → ℕ
  number_of_mutators up w = up.number_of_mutators w

  -- The thread that is asked about is not passed on.
  pub is_mutator : RubyUpcalls W → Address → W → Bool
  is_mutator up tls w = up.is_mutator w

  -- What the thread of a worker runs. `upcalls()` and `mmtk()` panic while no binding is set.
  -- `start_worker` is the loop of mmtk-core on an instance, which may itself change the globals, and
  -- `tls` is the address that `Box::into_raw` returns.
  pub worker_thread :
      {S : Type 0}
      → RubyUpcalls W
      → (start_worker : Address → GcThreadTls S W → Globals → W → Outcome (Globals × W)) → ThreadId
      → (worker tls : Address) → Globals
      → W
      → Outcome (Globals × W)
  worker_thread up start_worker thread_id worker tls g w = do
    registered ← register_gc_thread thread_id g
    let gc_thread_tls = for_worker worker
    _ ← binding registered
    let ready = up.init_gc_worker_thread tls w
    instance_of ← mmtk registered
    r ← start_worker instance_of gc_thread_tls registered ready
    unregistered ← unregister_gc_thread thread_id r.0
    ok (unregistered, r.1)

-- `VMActivePlan::mutator`, which mmtk-core does not call for Ruby.
abbrev pub mutator : (tls : Address) → Outcome Address
mutator tls = panic unsupported

-- `RubyMutatorIterator`, over the queue that `add_mutator_to_vec` fills.
pub record RubyMutatorIterator : Type 0 where
  pub mutators : List Address

add_mutator_to_vec : Address → List Address → List Address
add_mutator_to_vec mutator mutators = mutators ++ mutator ∷ []

fill : List Address → List Address → List Address
unfolding add_mutator_to_vec
fill [] queue = queue
fill (mutator ∷ mutators) queue = fill mutators (add_mutator_to_vec mutator queue)

-- `VMActivePlan::mutators`
pub mutators : {W : Type 0} → RubyUpcalls W → W → RubyMutatorIterator
unfolding fill
mutators up w = record { mutators = fill (up.get_mutators w) [] }

pop_front : List Address → Option Address × List Address
pop_front [] = (none, [])
pop_front (mutator ∷ mutators) = (some mutator, mutators)

pub next : RubyMutatorIterator → Option Address × RubyMutatorIterator
unfolding pop_front
next iterator = let r = pop_front iterator.mutators in (r.0, record { mutators = r.1 })
