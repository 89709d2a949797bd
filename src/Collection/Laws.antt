-- ===== src/Collection/Laws.antt =====
-- mmtk/src/collection.rs and active_plan.rs: iteration over the mutators, and panics of a worker.
use mathlib.Core.List.{append-nil, append_assoc}
use mmtk_ruby.Base.{
  ℕ, zero, suc, ◌≡◌, refl, sym, ap, ◌∙◌, Bool, if◌then◌else◌, List, [], ◌∷◌, ◌++◌, length, Option,
  none, some, Outcome, ok, panic, not_initialized,
}
use mmtk_ruby.Base.HashSet
use mmtk_ruby.Base.HashSet.{HashSet, contains, contains-insert}
use mmtk_ruby.Vm.{Address, RubyUpcalls}
use mmtk_ruby.Abi.Tls.{GcThreadTls, for_worker}
use mmtk_ruby.Binding.{RubyBinding}
use mmtk_ruby.Globals.{
  ThreadId, Globals, binding-some, binding-none, mmtk-some, remove, react, abort_process,
  default_report,
}
use mmtk_ruby.Globals.Laws.{
  IsHooked, register_gc_thread-IsHooked, unregister_gc_thread-IsHooked, react-IsHooked,
  contains-insert_self, contains-remove_self,
}
use mmtk_ruby.Collection.{
  worker_thread, RubyMutatorIterator, add_mutator_to_vec, fill, mutators, pop_front, next,
}

fill-append : (xs queue : List Address) → fill xs queue ≡ queue ++ xs
unfolding fill add_mutator_to_vec
fill-append [] queue = sym (append-nil queue)
fill-append (x ∷ xs) queue = fill-append xs (queue ++ x ∷ []) ∙ append_assoc queue (x ∷ []) xs

-- `n` calls of `next`: what they return, and the iterator that is left.
pub take_next : ℕ → RubyMutatorIterator → List (Option Address) × RubyMutatorIterator
take_next zero iterator = ([], iterator)
take_next (suc n) iterator =
    let r = next iterator in let rest = take_next n r.1 in (r.0 ∷ rest.0, rest.1)

abbrev pub somes : List Address → List (Option Address)
somes [] = []
somes (x ∷ xs) = some x ∷ somes xs

take_next-somes :
    (xs : List Address)
    → take_next (length xs) (record { mutators = xs }) ≡ (somes xs, record { mutators = [] })
unfolding take_next next pop_front
take_next-somes [] = refl
take_next-somes (x ∷ xs) = rw (take_next-somes xs) refl

-- The iterator yields every mutator that CRuby reports, once and in order, and then `none` for
-- ever.
pub mutators-yields :
    {W : Type 0} (up : RubyUpcalls W) (w : W)
    → (take_next (length (up.get_mutators w)) (mutators up w)
        ≡ (somes (up.get_mutators w), record { mutators = [] }))
      × (next (record { mutators = [] }) ≡ (none, record { mutators = [] }))
unfolding mutators next pop_front
mutators-yields up w = (
  ap (λ xs. take_next (length (up.get_mutators w)) (record { mutators = xs }))
        (fill-append (up.get_mutators w) [])
      ∙ take_next-somes (up.get_mutators w),
  refl,
)

decided :
    {b c : Bool}
    → b ≡ c
    → ok (if b then abort_process else default_report)
      ≡ ok (if c then abort_process else default_report)
decided e = ap (λ b. ok (if b then abort_process else default_report)) e

-- With the hook installed and a binding set, and if the loop of the worker on the instance of the
-- binding ends and leaves the registry and the hook alone: the thread runs to its end. A panic of the
-- thread inside the loop would abort the process; after its end, one would not; and the worker sees
-- its own TLS.
pub worker_thread-guarded :
    {S W : Type 0} (up : RubyUpcalls W)
    (start_worker : Address → GcThreadTls S W → Globals → W → Outcome (Globals × W)) (t : ThreadId)
    (worker tls : Address) (g : Globals) (threads : HashSet) (b : RubyBinding) (w : W)
    → IsHooked g threads
    → g.binding_cell ≡ some b
    → ((c : GcThreadTls S W) (g₁ : Globals) (x : W)
        → (r : Globals × W) × (start_worker b.mmtk c g₁ x ≡ ok r)
          × (r.0.gc_threads ≡ g₁.gc_threads)
          × (r.0.panic_hook ≡ g₁.panic_hook))
    → (g₁ g₂ g' : Globals) × (w' : W) × (react t g₁ ≡ ok abort_process)
      × (start_worker b.mmtk (for_worker worker) g₁ (up.init_gc_worker_thread tls w) ≡ ok (g₂, w'))
      × (worker_thread up start_worker t worker tls g w ≡ ok (g', w'))
      × (react t g' ≡ ok default_report)
unfolding worker_thread
worker_thread-guarded up start_worker t worker tls g threads b w h bound ends =
    let (g₁, e₁, h₁, kept) = register_gc_thread-IsHooked t g threads h in
    let (r, e₂, same, hook) = ends (for_worker worker) g₁ (up.init_gc_worker_thread tls w) in
    let h₂ : IsHooked r.0 (HashSet.insert threads t) = record {
      registry = same ∙ h₁.registry;
      hook = hook ∙ h₁.hook;
    } in
    let (g', e₃, h₃) = unregister_gc_thread-IsHooked t r.0 (HashSet.insert threads t) h₂ in
    (
      g₁,
      r.0,
      g',
      r.1,
      react-IsHooked g₁ (HashSet.insert threads t) t h₁ ∙ decided (contains-insert_self threads t),
      e₂,
      rw (e₁, binding-some g₁ b (kept ∙ bound), mmtk-some g₁ b (kept ∙ bound), e₂, e₃) refl,
      react-IsHooked g' (remove (HashSet.insert threads t) t) t h₃
          ∙ decided (contains-remove_self (HashSet.insert threads t) t),
    )

-- Without a binding the thread panics once it is registered, before the loop of mmtk-core.
worker_thread_unbound :
    {S W : Type 0} (up : RubyUpcalls W)
    (start_worker : Address → GcThreadTls S W → Globals → W → Outcome (Globals × W)) (t : ThreadId)
    (worker tls : Address) (g : Globals) (threads : HashSet) (w : W)
    → IsHooked g threads
    → g.binding_cell ≡ none
    → worker_thread up start_worker t worker tls g w ≡ panic not_initialized
unfolding worker_thread
worker_thread_unbound up start_worker t worker tls g threads w h unbound =
    let (g₁, e₁, _, kept) = register_gc_thread-IsHooked t g threads h in
    rw (e₁, binding-none g₁ (kept ∙ unbound)) refl
