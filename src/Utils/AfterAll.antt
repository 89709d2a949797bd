-- ===== src/Utils/AfterAll.antt =====
-- mmtk/src/utils.rs: `AfterAll`, a counter that releases work packets when it reaches zero.
-- A packet is a value of any type `P`. What `bulk_add` hands to the bucket of `stage` is returned
-- as the list of packets.
pub mod Threads
pub mod Invariant
pub mod Safety
mod Tests
use mmtk_ruby.Base.{
  ℕ, suc, ◌<◌, ◌≡◌, refl, arith, ◌+◌, ◌-◌, ◌%◌, ◌^◌, Bool, true, false, List, [], ◌++◌, ◌==◌,
  if◌then◌else◌,
}
use mmtk_ruby.Stage.{WorkBucketStage}

-- `AtomicUsize` arithmetic wraps around.
abbrev pub usize : ℕ → ℕ
usize n = n % 2 ^ 64

-- `fetch_sub(1)`
abbrev pub fetch_sub_one : ℕ → ℕ
fetch_sub_one c = usize (c + 2 ^ 64 - 1)

pub record AfterAll {ℓ} (P : Type ℓ) : Type ℓ where
  pub counter : ℕ
  pub stage : WorkBucketStage
  pub packets : List P

module _ {ℓ} {P : Type ℓ} where
  unfoldable pub new : WorkBucketStage → AfterAll P
  new stage = record { counter = 0; stage = stage; packets = [] }

  unfoldable pub add_packets : AfterAll P → List P → AfterAll P
  add_packets a packets = record a { packets = a.packets ++ packets }

  unfoldable pub count_up : AfterAll P → ℕ → AfterAll P
  count_up a n = record a { counter = usize (a.counter + n) }

  -- The new state, the packets that are added to the bucket, and the result. This is a call that
  -- no other thread interrupts; `Threads` takes it apart.
  pub count_down : AfterAll P → AfterAll P × List P × Bool
  count_down a =
      let a' : AfterAll P = record a { counter = fetch_sub_one a.counter } in
      if a.counter == 1 then (record a' { packets = [] }, a.packets, true) else (a', [], false)

  pub count_down_last :
      (a : AfterAll P)
      → a.counter ≡ 1
      → count_down a ≡ (record { counter = 0; stage = a.stage; packets = [] }, a.packets, true)
  unfolding count_down
  count_down_last a h = rw h refl

  pub count_down_more :
      (a : AfterAll P) (n : ℕ)
      → a.counter ≡ suc (suc n)
      → suc (suc n) < 2 ^ 64
      → count_down a ≡ (record { counter = suc n; stage = a.stage; packets = a.packets }, [], false)
  unfolding count_down
  count_down_more a n h b = rw (h, less n b) (ground arith)
    where
      less : (n : ℕ) → suc (suc n) < 2 ^ 64 → fetch_sub_one (suc (suc n)) ≡ suc n
      less n b = omega arith
