-- ===== src/Utils/AfterAll/Tests.antt =====
-- Runs of `AfterAll` on concrete inputs.
use mmtk_ruby.Base.{ℕ, ◌≡◌, refl, ◌⊎◌, true, false, List, [], ◌∷◌, arith}
use mmtk_ruby.Stage.{vm_ref_closure}
use mmtk_ruby.Utils.AfterAll.{new, add_packets, count_up, count_down}
use mmtk_ruby.Utils.AfterAll.Threads.{
  Pc, counted, returned, Shared, count, leave, borrow, take_packets, bulk_add, Crash, here, there,
  start, later, Reach,
}
use mmtk_ruby.Utils.AfterAll.Invariant.{waits, done, total}
use mmtk_ruby.Utils.AfterAll.Safety.{
  Runs, released_once, no_borrow_conflict, runs_end, can_finish, Step-fuel, first, further,
  unfinished,
}

-- Two workers, two packets, interleaved: the first worker counts down and is overtaken.
abbrev two_workers : Shared ℕ
two_workers = record { counter = 0; borrowed = false; packets = []; bucket = 7 ∷ 8 ∷ [] }

abbrev finals : List (Pc ℕ)
finals = returned false ∷ returned true ∷ []

unfoldable overtaken : Runs vm_ref_closure 2 (7 ∷ 8 ∷ []) two_workers finals
unfolding new add_packets count_up
overtaken =
    later
      (later
        (later
          (later (later (later start (here count)) (there (here count)))
            (there (here (borrow refl refl))))
          (there (here take_packets)))
        (here (leave (omega arith))))
      (there (here bulk_add))

about_to_borrow :
    Runs {P = ℕ} vm_ref_closure 2
      (7 ∷ 8 ∷ [])
      (record { counter = 0; borrowed = false; packets = 7 ∷ 8 ∷ []; bucket = [] })
      (counted 2 ∷ counted 1 ∷ [])
unfolding new add_packets count_up
about_to_borrow = later (later start (here count)) (there (here count))

released_once_example :
    (two_workers.bucket ≡ []) ⊎ ((two_workers.bucket ≡ 7 ∷ 8 ∷ []) × (total waits finals ≡ 0))
released_once_example =
    released_once vm_ref_closure 2 (7 ∷ 8 ∷ []) (omega arith) (omega arith) overtaken

no_borrow_conflict_example :
    ¬ Crash {P = ℕ}
      (record { counter = 0; borrowed = false; packets = 7 ∷ 8 ∷ []; bucket = [] })
      (counted 1)
no_borrow_conflict_example =
    no_borrow_conflict vm_ref_closure 2 (7 ∷ 8 ∷ []) (omega arith) (omega arith) about_to_borrow
      (further first)

can_finish_example :
    (s' : Shared ℕ) × (ps' : List (Pc ℕ)) × Reach {P = ℕ}
      (record { counter = 0; borrowed = false; packets = 7 ∷ 8 ∷ []; bucket = [] })
      (counted 2 ∷ counted 1 ∷ [])
      s'
      ps'
    × (total unfinished ps' ≡ 0)
    × (s'.bucket ≡ 7 ∷ 8 ∷ [])
    × (s'.packets ≡ [])
    × (total done ps' ≡ 1)
can_finish_example =
    can_finish vm_ref_closure 2 (7 ∷ 8 ∷ []) (omega arith) (omega arith) about_to_borrow

runs_end_example :
    (total unfinished finals ≡ 0)
    × (two_workers.bucket ≡ 7 ∷ 8 ∷ [])
    × (two_workers.packets ≡ [])
    × (total done finals ≡ 1)
runs_end_example =
    runs_end vm_ref_closure 2 (7 ∷ 8 ∷ []) (omega arith) (omega arith) overtaken
      (λ s' ps' st. absurd (omega (arith, Step-fuel st)))

-- At zero the counter wraps around, and nothing is released.
count_down_wraps :
    count_down {P = ℕ} (record { counter = 0; stage = vm_ref_closure; packets = 7 ∷ [] }) ≡ (
      record { counter = 18_446_744_073_709_551_615; stage = vm_ref_closure; packets = 7 ∷ [] },
      [],
      false,
    )
unfolding count_down
count_down_wraps = refl
