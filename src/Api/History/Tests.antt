-- ===== src/Api/History/Tests.antt =====
-- Requests on a fresh process.
use mmtk_ruby.Base.{◌≡◌, refl, true, false, List, [], ◌∷◌, ok}
use mmtk_ruby.Globals.{Globals}
use mmtk_ruby.Api.{mmtk_init_binding}
use mmtk_ruby.Api.Tests.{options, no_env, fresh}
use mmtk_ruby.Api.History.{
  Request, enable_collection, is_collection_enabled, plan_name, add_candidate, add_candidates,
  get_all_candidates, register_ppp, register_wb_unprotected, is_wb_unprotected, done, flag, objects,
  text, serve, ideal_serve, untouched, Represents,
}
use mmtk_ruby.Api.History.Refines.{serve-init_ideal}

abbrev requests : List Request
requests =
    add_candidate 8
    ∷ enable_collection
    ∷ register_wb_unprotected 32
    ∷ plan_name
    ∷ add_candidates (16 ∷ 8 ∷ [])
    ∷ is_wb_unprotected 32
    ∷ is_wb_unprotected 40
    ∷ get_all_candidates
    ∷ plan_name
    ∷ register_ppp 48
    ∷ get_all_candidates
    ∷ is_collection_enabled
    ∷ []

serve-init_ideal_example :
    (g₀ g' : Globals) × (mmtk_init_binding no_env options 7000 fresh ≡ ok g₀)
    × (serve (73 ∷ []) requests g₀
        ≡ ok (
          g',
          done
              ∷ done
              ∷ done
              ∷ text (73 ∷ [])
              ∷ done
              ∷ flag true
              ∷ flag false
              ∷ objects (8 ∷ 16 ∷ 8 ∷ [])
              ∷ text (73 ∷ [])
              ∷ done
              ∷ objects []
              ∷ flag true
              ∷ [],
        ))
    × Represents (73 ∷ []) g' (ideal_serve (73 ∷ []) requests untouched).0
serve-init_ideal_example =
    serve-init_ideal (73 ∷ []) requests no_env options 7000 fresh refl refl refl
