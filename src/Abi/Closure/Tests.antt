-- ===== src/Abi/Closure/Tests.antt =====
-- The closure on concrete scripts: CRuby's state is a number, the captured state a list.
use mmtk_ruby.Base.{
  ℕ, ◌+◌, ◌≡◌, refl, true, false, List, [], ◌∷◌, ok, panic, ◌>>=◌, closure_not_set,
}
use mmtk_ruby.Build.{Build}
use mmtk_ruby.Vm.{Script, finish, visit}
use mmtk_ruby.Abi.Closure.{VisitObject, default, run_script, set_temporarily_and_run_code, upcall}
use mmtk_ruby.Abi.Closure.Laws.{run_visits, registered, set_temporarily-upcall, nested-panics}

abbrev debug : Build
debug = record { debug_assertions = true; extra_assert_feature = false; clear_old_copy = false }

abbrev release : Build
release = record { debug_assertions = false; extra_assert_feature = false; clear_old_copy = false }

-- Collects the visited objects, and moves each by 100.
abbrev collect : VisitObject (List ℕ) ℕ
collect s w object pin = ok (object + 100, object ∷ s, w + 1)

-- Visits an object, and then the reference that it got back.
abbrev chase : ℕ → Script ℕ
chase w = visit w 8 false (λ w' o. visit w' o true (λ w'' o'. finish w''))

chase_twice : run_visits collect (chase 0) [] ≡ ok (108 ∷ 8 ∷ [], 2)
unfolding run_visits
chase_twice = refl

set_temporarily-upcall_example :
    set_temporarily_and_run_code debug collect (upcall chase) default [] 0
    ≡ ok (tt, default, 108 ∷ 8 ∷ [], 2)
unfolding run_visits
set_temporarily-upcall_example = set_temporarily-upcall debug collect chase [] 0

nested-panics_example :
    set_temporarily_and_run_code release collect
      (λ c s' w'. set_temporarily_and_run_code release collect (upcall chase) c s' w' >>= λ q.
        upcall chase q.1 q.2 q.3)
      default
      []
      0
    ≡ panic closure_not_set
unfolding set_temporarily_and_run_code run_script
nested-panics_example =
    nested-panics release collect collect (upcall chase) 8 false
      (λ w' o. visit w' o true (λ w'' o'. finish w'')) [] 0
      (tt, registered collect, 108 ∷ 8 ∷ [], 2) refl
