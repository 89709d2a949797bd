-- ===== src/Base/Outcomes.antt =====
-- Results of Rust code that may panic, or that waits for a mutex.
use mathlib.Core.Path.{◌≡◌, refl, sym, ap}
use mathlib.Core.Bool.{Bool, true, false, true≢false}

-- The panics of the source, by cause.
pub data Panic : Type 0 where
  not_initialized : Panic
  already_initialized : Panic
  poisoned : Panic
  lock_race : Panic
  overflow : Panic
  assertion : Panic
  null_tls : Panic
  wrong_thread_kind : Panic
  closure_not_set : Panic
  closure_reentered : Panic
  no_givtbl : Panic
  zero_step : Panic
  not_mmtk_object : Panic
  thread_panicked : Panic
  bad_plan_name : Panic
  unsupported : Panic
  corrupted_header : Panic
  unexpected_allocator : Panic
  not_utf8 : Panic

-- `blocked`: the thread waits for a mutex that another one holds.
pub data Outcome {ℓ} (A : Type ℓ) : Type ℓ where
  ok : A → Outcome A
  panic : Panic → Outcome A
  blocked : Outcome A

infixl 5 ◌>>=◌ ◌>>◌
abbrev pub ◌>>=◌ {ℓ κ} : {A : Type ℓ} {B : Type κ} → Outcome A → (A → Outcome B) → Outcome B
ok a >>= f = f a
panic p >>= f = panic p
blocked >>= f = blocked

abbrev pub ◌>>◌ {ℓ} : {B : Type ℓ} → Outcome (Unit {0}) → Outcome B → Outcome B
m >> k = m >>= λ _. k

-- `assert!(b, …)`
abbrev pub assert : Bool → Panic → Outcome (Unit {0})
assert true p = ok tt
assert false p = panic p

pub data LockStatus : Type 0 where
  free : LockStatus
  held : LockStatus
  broken : LockStatus

-- `std::sync::Mutex`: the value, and whether some thread holds it or has panicked with it.
pub record Mutex {ℓ} (A : Type ℓ) : Type ℓ where
  pub status : LockStatus
  pub value : A

module _ {ℓ} {A : Type ℓ} where
  abbrev pub unlocked : A → Mutex A
  unlocked a = record { status = free; value = a }

  abbrev pub acquire : LockStatus → A → Outcome A
  acquire free a = ok a
  acquire held a = blocked
  acquire broken a = panic poisoned

  abbrev pub try_acquire : LockStatus → A → Outcome A
  try_acquire free a = ok a
  try_acquire held a = panic lock_race
  try_acquire broken a = panic lock_race

  -- `m.lock().unwrap()`
  abbrev pub lock : Mutex A → Outcome A
  lock m = acquire m.status m.value

  -- `m.try_lock().expect(…)`
  abbrev pub try_lock : Mutex A → Outcome A
  try_lock m = try_acquire m.status m.value

-- Two continuations that agree.
pub bind_ext {ℓ κ} :
    {A : Type ℓ} {B : Type κ} (m : Outcome A) (f g : A → Outcome B)
    → ((a : A) → f a ≡ g a)
    → (m >>= f) ≡ (m >>= g)
bind_ext (ok a) f g h = h a
bind_ext (panic p) f g h = refl
bind_ext blocked f g h = refl

abbrev value_or {ℓ} : {A : Type ℓ} → Outcome A → A → A
value_or (ok a) d = a
value_or (panic p) d = d
value_or blocked d = d

pub ok-injective {ℓ} : {A : Type ℓ} {a b : A} → ok a ≡ ok b → a ≡ b
ok-injective {a} e = ap (λ o. value_or o a) e

abbrev pub is_ok {ℓ} : {A : Type ℓ} → Outcome A → Bool
is_ok (ok a) = true
is_ok (panic p) = false
is_ok blocked = false

-- What succeeds in two steps succeeds in each.
pub bind-ok {ℓ κ} :
    {A : Type ℓ} {B : Type κ} (m : Outcome A) (f : A → Outcome B) (b : B)
    → (m >>= f) ≡ ok b
    → (a : A) × (m ≡ ok a) × (f a ≡ ok b)
bind-ok (ok a) f b e = (a, refl, e)
bind-ok (panic p) f b e = absurd (true≢false (sym (ap is_ok e)))
bind-ok blocked f b e = absurd (true≢false (sym (ap is_ok e)))
