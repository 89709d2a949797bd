-- ===== src/Globals.antt =====
-- mmtk/src/lib.rs: the global variables, the registry of GC threads, and the panic hook.
pub mod Laws
mod Tests
use mmtk_ruby.Base.{
  ℕ, ◌≡◌, refl, Bool, true, false, not, ◌==◌, List, [], ◌∷◌, keep, if◌then◌else◌, Option, none,
  some, Outcome, ok, panic, ◌>>=◌, not_initialized, Mutex, unlocked, lock,
}
use mmtk_ruby.Base.HashSet
use mmtk_ruby.Base.HashSet.{HashSet}
use mmtk_ruby.Binding.{RubyBinding}

abbrev pub ThreadId : Type 0
ThreadId = ℕ

-- The hook that was there, or the one that `set_panic_hook` puts around another.
pub data PanicHook : Type 0 where
  default_hook : PanicHook
  gc_thread_hook : (old_hook : PanicHook) → PanicHook

pub record Globals : Type 0 where
  pub binding_cell : Option RubyBinding
  pub gc_enabled : Bool
  pub suffix_size : ℕ
  pub gc_threads : Option (Mutex HashSet)
  pub panic_hook : PanicHook

-- The globals of a process that has just started.
pub start : Globals
start = record {
  binding_cell = none;
  gc_enabled = false;
  suffix_size = 0;
  gc_threads = none;
  panic_hook = default_hook;
}

-- `OnceCell::get().unwrap()`
get_cell : {A : Type 0} → Option A → Outcome A
get_cell none = panic not_initialized
get_cell (some a) = ok a

pub binding : Globals → Outcome RubyBinding
unfolding get_cell
binding g = get_cell g.binding_cell

pub mmtk : Globals → Outcome ℕ
unfolding binding
mmtk g = binding g >>= λ b. ok b.mmtk

pub remove : HashSet → ThreadId → HashSet
remove s thread_id = keep (λ x. not (x == thread_id)) s

pub register_gc_thread : ThreadId → Globals → Outcome Globals
unfolding get_cell
register_gc_thread thread_id g = do
  m ← get_cell g.gc_threads
  gc_threads ← lock m
  ok (record g {
    gc_threads = some (record { status = m.status; value = HashSet.insert gc_threads thread_id });
  })

pub unregister_gc_thread : ThreadId → Globals → Outcome Globals
unfolding get_cell remove
unregister_gc_thread thread_id g = do
  m ← get_cell g.gc_threads
  gc_threads ← lock m
  ok (record g {
    gc_threads = some (record { status = m.status; value = remove gc_threads thread_id });
  })

pub is_gc_thread : ThreadId → Globals → Outcome Bool
unfolding get_cell
is_gc_thread thread_id g = do
  m ← get_cell g.gc_threads
  gc_threads ← lock m
  ok (HashSet.contains gc_threads thread_id)

install_hook : Option (Mutex HashSet) → Globals → Globals
install_hook (some m) g = g
install_hook none g = record g {
  gc_threads = some (unlocked []);
  panic_hook = gc_thread_hook g.panic_hook;
}

pub set_panic_hook : Globals → Globals
unfolding install_hook
set_panic_hook g = install_hook g.gc_threads g

-- What happens when a thread panics.
pub data Reaction : Type 0 where
  abort_process : Reaction
  default_report : Reaction

-- `handle_gc_thread_panic` prints, and aborts the process.
pub run_hook : PanicHook → ThreadId → Globals → Outcome Reaction
run_hook default_hook thread_id g = ok default_report
run_hook (gc_thread_hook old_hook) thread_id g =
    let reported = run_hook old_hook thread_id g in
    is_gc_thread thread_id g >>= λ gc. if gc then ok abort_process else reported

-- The panic of a thread.
pub react : ThreadId → Globals → Outcome Reaction
unfolding run_hook
react thread_id g = run_hook g.panic_hook thread_id g

pub binding-some : (g : Globals) (b : RubyBinding) → g.binding_cell ≡ some b → binding g ≡ ok b
unfolding binding get_cell
binding-some g b h = rw h refl

pub binding-none : (g : Globals) → g.binding_cell ≡ none → binding g ≡ panic not_initialized
unfolding binding get_cell
binding-none g h = rw h refl

pub mmtk-some : (g : Globals) (b : RubyBinding) → g.binding_cell ≡ some b → mmtk g ≡ ok b.mmtk
unfolding mmtk
mmtk-some g b h = rw (binding-some g b h) refl

pub mmtk-none : (g : Globals) → g.binding_cell ≡ none → mmtk g ≡ panic not_initialized
unfolding mmtk binding get_cell
mmtk-none g h = rw h refl

pub set_panic_hook-keeps : (g : Globals) → (set_panic_hook g).binding_cell ≡ g.binding_cell
unfolding set_panic_hook install_hook
set_panic_hook-keeps g = keeps g.gc_threads g
  where
    keeps :
        (m : Option (Mutex HashSet)) (g : Globals)
        → (install_hook m g).binding_cell ≡ g.binding_cell
    keeps none g = refl
    keeps (some m) g = refl

pub set_panic_hook-keeps_enabled : (g : Globals) → (set_panic_hook g).gc_enabled ≡ g.gc_enabled
unfolding set_panic_hook install_hook
set_panic_hook-keeps_enabled g = keeps g.gc_threads g
  where
    keeps :
        (m : Option (Mutex HashSet)) (g : Globals) → (install_hook m g).gc_enabled ≡ g.gc_enabled
    keeps none g = refl
    keeps (some m) g = refl
