-- ===== src/Binding.antt =====
-- mmtk/src/binding.rs: the singleton `RubyBinding`. Strings are lists of bytes, the address of the
-- `MMTK` instance is a number, and a join handle is the outcome of its thread.
pub mod Laws
mod Tests
use mathlib.Core.Option.{get_or}
use mmtk_ruby.Base.{
  ℕ, ◌+◌, ◌-◌, ◌*◌, ◌^◌, Bool, true, false, not, ◌&&◌, leb, ltb, ◌==◌, member, if◌then◌else◌, List,
  [], ◌∷◌, ◌++◌, Option, none, some, Outcome, ok, panic, ◌>>=◌, ◌>>◌, assert, Mutex, unlocked, lock,
  bad_plan_name, thread_panicked,
}
use mmtk_ruby.Base.HashSet
use mmtk_ruby.Base.HashSet.{HashSet}
use mmtk_ruby.Vm.{ObjectReference}
use mmtk_ruby.Givtbl.{MovedGivtbl}
use mmtk_ruby.Ppp as Ppp
use mmtk_ruby.Ppp.{PppRegistry}
use mmtk_ruby.Weak as Weak
use mmtk_ruby.Weak.{WeakProcessor}
use mmtk_ruby.Weak.Tables.{ChunkSizes}

-- The environment variables that are read.
pub data EnvVar : Type 0 where
  ruby_mmtk_entries_chunk_size : EnvVar
  ruby_mmtk_bins_chunk_size : EnvVar

-- `str::parse::<usize>`: digits, after a `+` or not, and no overflow.
parse_digits : ℕ → List ℕ → Option ℕ
parse_digits n [] = some n
parse_digits n (c ∷ cs) =
    let n' = n * 10 + (c - 48) in
    let rest = parse_digits n' cs in
    if leb 48 c && (leb c 57 && ltb n' (2 ^ 64)) then rest else none

pub parse_usize : List ℕ → Option ℕ
unfolding parse_digits
parse_usize [] = none
parse_usize (c ∷ []) = if c == 43 then none else parse_digits 0 (c ∷ [])
parse_usize (c ∷ d ∷ cs) = if c == 43 then parse_digits 0 (d ∷ cs) else parse_digits 0 (c ∷ d ∷ cs)

-- `std::env::var(name).ok()` is the function `env`.
pub env_default : {T : Type 0} → (List ℕ → Option T) → (EnvVar → Option (List ℕ)) → EnvVar → T → T
env_default {T} parse env name default = parsed (env name)
  where
    parsed : Option (List ℕ) → T
    parsed none = default
    parsed (some x) = get_or (parse x) default

pub record RubyBindingOptions : Type 0 where
  pub ractor_check_mode : Bool
  pub suffix_size : ℕ

pub record RubyBinding : Type 0 where
  pub mmtk : ℕ
  pub options : RubyBindingOptions
  pub plan_name : Mutex (Option (List ℕ))
  pub weak_proc : WeakProcessor
  pub ppp_registry : PppRegistry
  pub moved_givtbl : Mutex MovedGivtbl
  pub gc_thread_join_handles : Mutex (List Bool)
  pub wb_unprotected_objects : Mutex HashSet
  pub st_chunk_sizes : ChunkSizes

-- The new binding, and the new `BINDING_FAST_MUT.suffix_size`.
unfoldable pub new : (mmtk : ℕ) → RubyBindingOptions → (EnvVar → Option (List ℕ)) → RubyBinding × ℕ
unfolding parse_usize env_default
new mmtk binding_options env = (
  record {
    mmtk = mmtk;
    options = binding_options;
    plan_name = unlocked none;
    weak_proc = Weak.new;
    ppp_registry = Ppp.new;
    moved_givtbl = unlocked [];
    gc_thread_join_handles = unlocked [];
    wb_unprotected_objects = unlocked [];
    st_chunk_sizes = record {
      entries = env_default parse_usize env ruby_mmtk_entries_chunk_size 1024;
      bins = env_default parse_usize env ruby_mmtk_bins_chunk_size 4096;
    };
  },
  binding_options.suffix_size,
)

-- `CString::new` refuses a zero byte. `name` is the `Debug` form of the selected plan.
fresh_plan_name : (name : List ℕ) → Outcome (List ℕ)
fresh_plan_name name = do assert (not (member 0 name)) bad_plan_name; ok name

cached_plan_name : Option (List ℕ) → (name : List ℕ) → Outcome (List ℕ)
cached_plan_name none name = fresh_plan_name name
cached_plan_name (some cached) name = ok cached

pub get_plan_name_c : (name : List ℕ) → RubyBinding → Outcome (List ℕ × RubyBinding)
unfolding cached_plan_name fresh_plan_name
get_plan_name_c name b = do
  plan_name ← lock b.plan_name
  c_string ← cached_plan_name plan_name name
  ok (
    c_string,
    record b { plan_name = record { status = b.plan_name.status; value = some c_string } },
  )

-- `handle.join().unwrap()` for each handle; `false` for a thread that has panicked.
join_each : List Bool → ℕ → Outcome ℕ
join_each [] joined = ok joined
join_each (handle ∷ handles) joined =
    assert handle thread_panicked >> join_each handles (joined + 1)

pub join_all_gc_threads : RubyBinding → Outcome (ℕ × RubyBinding)
unfolding join_each
join_all_gc_threads b = do
  handles ← lock b.gc_thread_join_handles
  joined ← join_each handles 0
  ok (
    joined,
    record b {
      gc_thread_join_handles = record { status = b.gc_thread_join_handles.status; value = [] };
    },
  )

pub register_wb_unprotected_object : ObjectReference → RubyBinding → Outcome RubyBinding
register_wb_unprotected_object object b = do
  objects ← lock b.wb_unprotected_objects
  ok (record b {
    wb_unprotected_objects = record {
      status = b.wb_unprotected_objects.status;
      value = HashSet.insert objects object;
    };
  })

pub is_object_wb_unprotected : ObjectReference → RubyBinding → Outcome Bool
is_object_wb_unprotected object b = do
  objects ← lock b.wb_unprotected_objects
  ok (HashSet.contains objects object)
