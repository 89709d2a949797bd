-- ===== src/Api/Builder.antt =====
-- mmtk/src/api.rs: the functions on an `MMTKBuilder`, of which the options are kept that they set.
-- `parse` stands for `str::parse::<PlanSelector>` of mmtk-core, on the bytes of a C string.
mod Laws
mod Tests
use mmtk_ruby.Base.{
  ℕ, ◌*◌, Bool, true, false, not, ◌&&◌, ◌||◌, leb, ltb, ◌==◌, if◌then◌else◌, List, [], ◌∷◌, Option,
  none, some, Outcome, ok, panic, ◌>>◌, assert, bad_plan_name, not_utf8,
}

-- The plans of mmtk-core that have a function here; any other is a number.
pub data PlanSelector : Type 0 where
  mark_sweep : PlanSelector
  immix : PlanSelector
  sticky_immix : PlanSelector
  other_plan : ℕ → PlanSelector

pub data GcTriggerSelector : Type 0 where
  dynamic_heap_size : (low high : ℕ) → GcTriggerSelector
  fixed_heap_size : ℕ → GcTriggerSelector

pub record MmtkBuilder : Type 0 where
  pub no_finalizer : Bool
  pub gc_trigger : GcTriggerSelector
  pub plan : PlanSelector

-- `core_default` is `MMTKBuilder::new_no_env_vars()`.
pub mmtk_builder_default : (core_default : MmtkBuilder) → MmtkBuilder
mmtk_builder_default core_default = record core_default { no_finalizer = true }

-- `read_env_var_settings` is the method of mmtk-core's options.
pub mmtk_builder_read_env_var_settings :
    (read_env_var_settings : MmtkBuilder → MmtkBuilder) → MmtkBuilder → MmtkBuilder
mmtk_builder_read_env_var_settings read_env_var_settings builder = read_env_var_settings builder

-- `set` of an option of mmtk-core leaves it as it is if `valid`, its validator, refuses the value.
set_gc_trigger : (valid : GcTriggerSelector → Bool) → GcTriggerSelector → MmtkBuilder → MmtkBuilder
set_gc_trigger valid trigger builder =
    if valid trigger then record builder { gc_trigger = trigger } else builder

pub mmtk_builder_set_dynamic_heap_size :
    (valid : GcTriggerSelector → Bool) → MmtkBuilder → (low high : ℕ) → MmtkBuilder
unfolding set_gc_trigger
mmtk_builder_set_dynamic_heap_size valid builder low high =
    set_gc_trigger valid (dynamic_heap_size low high) builder

pub mmtk_builder_set_fixed_heap_size :
    (valid : GcTriggerSelector → Bool) → MmtkBuilder → ℕ → MmtkBuilder
unfolding set_gc_trigger
mmtk_builder_set_fixed_heap_size valid builder heap_size =
    set_gc_trigger valid (fixed_heap_size heap_size) builder

-- `CStr::to_str` of the Rust library: whether the bytes are UTF-8. A lead byte says how many
-- continuation bytes follow it, and bounds the first of them.
abbrev pub continues : ℕ → Bool
continues b = leb 128 b && leb b 191

abbrev pub second_of_three : ℕ → ℕ → Bool
second_of_three a b =
    if a == 224
    then leb 160 b && leb b 191
    else if a == 237
    then leb 128 b && leb b 159
    else continues b

abbrev pub second_of_four : ℕ → ℕ → Bool
second_of_four a b =
    if a == 240
    then leb 144 b && leb b 191
    else if a == 244
    then leb 128 b && leb b 143
    else continues b

pub is_utf8 : List ℕ → Bool
is_utf8 [] = true
is_utf8 (a ∷ []) = ltb a 128
is_utf8 (a ∷ b ∷ []) =
    let one = is_utf8 (b ∷ []) in if ltb a 128 then one else leb 194 a && (leb a 223 && continues b)
is_utf8 (a ∷ b ∷ c ∷ []) =
    let one = is_utf8 (b ∷ c ∷ []) in
    let two = is_utf8 (c ∷ []) in
    if ltb a 128
    then one
    else if leb a 223
    then leb 194 a && (continues b && two)
    else leb a 239 && (second_of_three a b && continues c)
is_utf8 (a ∷ b ∷ c ∷ d ∷ rest) =
    let one = is_utf8 (b ∷ c ∷ d ∷ rest) in
    let two = is_utf8 (c ∷ d ∷ rest) in
    let three = is_utf8 (d ∷ rest) in
    let four = is_utf8 rest in
    if ltb a 128
    then one
    else if leb a 223
    then leb 194 a && (continues b && two)
    else if leb a 239
    then second_of_three a b && (continues c && three)
    else leb a 244 && (second_of_four a b && (continues c && (continues d && four)))

select : Option PlanSelector → MmtkBuilder → Outcome MmtkBuilder
select none builder = panic bad_plan_name
select (some plan_selector) builder = ok (record builder { plan = plan_selector })

-- The validator of the plan accepts every plan.
pub mmtk_builder_set_plan :
    (parse : List ℕ → Option PlanSelector) → MmtkBuilder → List ℕ → Outcome MmtkBuilder
unfolding select
mmtk_builder_set_plan parse builder plan_name =
    assert (is_utf8 plan_name) not_utf8 >> select (parse plan_name) builder

is_mark_sweep : PlanSelector → Bool
is_mark_sweep mark_sweep = true
is_mark_sweep _ = false

is_immix : PlanSelector → Bool
is_immix immix = true
is_immix _ = false

is_sticky_immix : PlanSelector → Bool
is_sticky_immix sticky_immix = true
is_sticky_immix _ = false

pub mmtk_builder_is_mark_sweep : MmtkBuilder → Bool
unfolding is_mark_sweep
mmtk_builder_is_mark_sweep builder = is_mark_sweep builder.plan

pub mmtk_builder_is_immix : MmtkBuilder → Bool
unfolding is_immix
mmtk_builder_is_immix builder = is_immix builder.plan

pub mmtk_builder_is_sticky_immix : MmtkBuilder → Bool
unfolding is_sticky_immix
mmtk_builder_is_sticky_immix builder = is_sticky_immix builder.plan
