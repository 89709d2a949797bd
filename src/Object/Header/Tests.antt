-- ===== src/Object/Header/Tests.antt =====
-- An object at address 16 with a payload of 40 bytes and the flag for generic instance variables.
use mmtk_ruby.Base.{ℕ, ◌+◌, ◌≡◌, arith, true, ◌==◌, if◌then◌else◌, ok}
use mmtk_ruby.Build.{Build}
use mmtk_ruby.Object.{Memory, load_bytes, obj_start, object_size, obj_end}
use mmtk_ruby.Object.Header.{object_size-extent}

abbrev checked : Build
checked = record { debug_assertions = true; extra_assert_feature = true; clear_old_copy = true }

abbrev bytes : Memory
bytes a = if a == 8 then 40 else if a == 17 then 4 else 0

object_size-extent_example :
    (size end : ℕ) × (object_size checked bytes 8 16 ≡ ok size)
    × (obj_end checked bytes 8 16 ≡ ok end)
    × (obj_start 16 + size ≡ end)
    × (size ≡ 56)
unfolding load_bytes obj_start
object_size-extent_example =
    object_size-extent checked bytes 8 16 (omega arith) (omega arith) (omega arith)
