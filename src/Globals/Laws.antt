-- ===== src/Globals/Laws.antt =====
-- mmtk/src/lib.rs: which threads the panic hook takes for GC threads.
use mmtk_ruby.Base.{
  ◌≡◌, refl, ap, ◌∙◌, arith, Bool, true, false, not, ◌&&◌, ◌||◌, ◌==◌, if◌then◌else◌, List, [], ◌∷◌,
  none, some, Outcome, ok, ◌>>=◌, unlocked,
}
use mmtk_ruby.Base.HashSet
use mmtk_ruby.Base.HashSet.{HashSet, contains, contains-insert, IsHashSet}
use mmtk_ruby.Globals.{
  ThreadId, default_hook, gc_thread_hook, Globals, get_cell, remove, register_gc_thread,
  unregister_gc_thread, is_gc_thread, set_panic_hook, install_hook, abort_process, default_report,
  run_hook, react,
}

-- The hook stands around one other, and nobody holds the lock of the registry.
pub record IsHooked (g : Globals) (threads : HashSet) : Type 0 where
  pub registry : g.gc_threads ≡ some (unlocked threads)
  pub hook : g.panic_hook ≡ gc_thread_hook default_hook

pub react-IsHooked :
    (g : Globals) (threads : HashSet) (t : ThreadId)
    → IsHooked g threads
    → react t g ≡ ok (if contains threads t then abort_process else default_report)
unfolding react run_hook is_gc_thread get_cell
react-IsHooked g threads t h = rw (h.hook, h.registry) (ground arith)

pub contains-remove :
    (s : HashSet) (t x : ThreadId) → contains (remove s t) x ≡ (contains s x && not (x == t))
unfolding remove contains
contains-remove [] t x = refl
contains-remove (y ∷ s) t x = ground (arith, contains-remove s t x)

pub contains-insert_self : (s : HashSet) (t : ThreadId) → contains (HashSet.insert s t) t ≡ true
contains-insert_self s t = rw (contains-insert s t t) (ground arith)

pub contains-remove_self : (s : HashSet) (t : ThreadId) → contains (remove s t) t ≡ false
contains-remove_self s t = rw (contains-remove s t t) (ground arith)

-- A GC thread begins or ends.
pub data Call : Type 0 where
  begin : ThreadId → Call
  end : ThreadId → Call

perform : Call → Globals → Outcome Globals
perform (begin t) g = register_gc_thread t g
perform (end t) g = unregister_gc_thread t g

pub perform_all : List Call → Globals → Outcome Globals
unfolding perform
perform_all [] g = ok g
perform_all (c ∷ cs) g = perform c g >>= λ g'. perform_all cs g'

-- Whether thread `t` is inside, if it is or is not at the beginning: its last call decides.
abbrev pub inside : List Call → ThreadId → Bool → Bool
inside [] t now = now
inside (begin u ∷ cs) t now = inside cs t (u == t || now)
inside (end u ∷ cs) t now = inside cs t (now && not (t == u))

pub register_gc_thread-IsHooked :
    (u : ThreadId) (g : Globals) (threads : HashSet)
    → IsHooked g threads
    → (g' : Globals) × (register_gc_thread u g ≡ ok g')
      × IsHooked g' (HashSet.insert threads u)
      × (g'.binding_cell ≡ g.binding_cell)
unfolding register_gc_thread get_cell
register_gc_thread-IsHooked u g threads h = (
  record g { gc_threads = some (unlocked (HashSet.insert threads u)) },
  rw h.registry refl,
  record { registry = refl; hook = h.hook },
  refl,
)

pub unregister_gc_thread-IsHooked :
    (u : ThreadId) (g : Globals) (threads : HashSet)
    → IsHooked g threads
    → (g' : Globals) × (unregister_gc_thread u g ≡ ok g') × IsHooked g' (remove threads u)
unfolding unregister_gc_thread get_cell
unregister_gc_thread-IsHooked u g threads h = (
  record g { gc_threads = some (unlocked (remove threads u)) },
  rw h.registry refl,
  record { registry = refl; hook = h.hook },
)

perform_all-IsHooked :
    (cs : List Call) (g : Globals) (threads : HashSet) (t : ThreadId)
    → IsHooked g threads
    → (g' : Globals) × (threads' : HashSet) × (perform_all cs g ≡ ok g')
      × IsHooked g' threads'
      × (contains threads' t ≡ inside cs t (contains threads t))
unfolding perform_all perform
perform_all-IsHooked [] g threads t h = (g, threads, refl, h, refl)
perform_all-IsHooked (begin u ∷ cs) g threads t h =
    let (g₁, e₁, h₁, _) = register_gc_thread-IsHooked u g threads h in
    let (g₂, s, e₂, h₂, c) = perform_all-IsHooked cs g₁ (HashSet.insert threads u) t h₁ in
    (g₂, s, rw (e₁, e₂) refl, h₂, c ∙ ap (inside cs t) (contains-insert threads u t))
perform_all-IsHooked (end u ∷ cs) g threads t h =
    let (g₁, e₁, h₁) = unregister_gc_thread-IsHooked u g threads h in
    let (g₂, s, e₂, h₂, c) = perform_all-IsHooked cs g₁ (remove threads u) t h₁ in
    (g₂, s, rw (e₁, e₂) refl, h₂, c ∙ ap (inside cs t) (contains-remove threads u t))

set_panic_hook-IsHooked :
    (g : Globals)
    → g.gc_threads ≡ none
    → g.panic_hook ≡ default_hook
    → IsHooked (set_panic_hook g) []
unfolding set_panic_hook install_hook
set_panic_hook-IsHooked g h d = rw h (record { registry = refl; hook = ap gc_thread_hook d })

set_twice : (g : Globals) {threads : HashSet} → IsHooked g threads → set_panic_hook g ≡ g
unfolding set_panic_hook install_hook
set_twice g h = rw h.registry refl

-- In a process without the hook: the hook can be installed any number of times, and is installed
-- once. Then every sequence of beginnings and ends of GC threads succeeds, and a panic of a thread
-- aborts the process exactly if the last call about this thread was a beginning; the panic of any
-- other thread is left to the hook that was there before.
pub panic-aborts_iff :
    (g : Globals) (cs : List Call) (t : ThreadId)
    → g.gc_threads ≡ none
    → g.panic_hook ≡ default_hook
    → (g' : Globals) × (set_panic_hook (set_panic_hook g) ≡ set_panic_hook g)
      × (perform_all cs (set_panic_hook g) ≡ ok g')
      × (react t g' ≡ ok (if inside cs t false then abort_process else default_report))
unfolding contains
panic-aborts_iff g cs t h d =
    let hooked = set_panic_hook-IsHooked g h d in
    let (g', s, e, h', c) = perform_all-IsHooked cs (set_panic_hook g) [] t hooked in
    (
      g',
      set_twice (set_panic_hook g) hooked,
      e,
      react-IsHooked g' s t h' ∙ ap (λ b. ok (if b then abort_process else default_report)) c,
    )
