-- ===== src/Build.antt =====
-- mmtk/src/lib.rs and mmtk/Cargo.toml: the compile-time switches, and `extra_assert!`.
use mmtk_ruby.Base.{
  ◌≡◌, arith, Bool, true, ◌||◌, ℕ, ◌+◌, ◌%◌, ◌^◌, ltb, panic, overflow, if◌then◌else◌, Outcome, ok,
  assert, Panic,
}

pub record Build : Type 0 where
  pub debug_assertions : Bool
  pub extra_assert_feature : Bool
  pub clear_old_copy : Bool

-- `debug_assert!(b, …)`
abbrev pub debug_assert : Build → Bool → Panic → Outcome (Unit {0})
debug_assert build b p = if build.debug_assertions then assert b p else ok tt

-- `extra_assert!(b, …)`
abbrev pub extra_assert : Build → Bool → Panic → Outcome (Unit {0})
extra_assert build b p =
    if build.debug_assertions || build.extra_assert_feature then assert b p else ok tt

-- `a + b` on `usize`: overflow panics with debug assertions, and wraps without.
unfoldable pub add_usize : Build → ℕ → ℕ → Outcome ℕ
add_usize build a b =
    if ltb (a + b) (2 ^ 64)
    then ok (a + b)
    else if build.debug_assertions
    then panic overflow
    else ok ((a + b) % 2 ^ 64)

-- A condition that holds, in any build.
pub extra_assert-true : (build : Build) (p : Panic) → extra_assert build true p ≡ ok tt
extra_assert-true build p = ground arith

pub debug_assert-true : (build : Build) (p : Panic) → debug_assert build true p ≡ ok tt
debug_assert-true build p = ground arith
