-- ===== src/Globals/Tests.antt =====
-- Thread 5 begins, 6 begins, and 5 ends.
use mmtk_ruby.Base.{◌≡◌, refl, [], ◌∷◌, ok, List}
use mmtk_ruby.Globals.{Globals, start, set_panic_hook, default_report, react}
use mmtk_ruby.Globals.Laws.{Call, begin, end, perform_all, panic-aborts_iff}

abbrev calls : List Call
calls = begin 5 ∷ begin 6 ∷ end 5 ∷ []

panic-aborts_iff_example :
    (g' : Globals) × (set_panic_hook (set_panic_hook start) ≡ set_panic_hook start)
    × (perform_all calls (set_panic_hook start) ≡ ok g')
    × (react 5 g' ≡ ok default_report)
unfolding start
panic-aborts_iff_example = panic-aborts_iff start calls 5 refl refl
