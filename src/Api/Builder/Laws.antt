-- ===== src/Api/Builder/Laws.antt =====
-- mmtk/src/api.rs: what CRuby can ask of a builder after it has named a plan.
use mmtk_ruby.Base.{
  ℕ, ◌≡◌, refl, Bool, true, false, List, [], ◌∷◌, Option, none, some, ok, panic, not_utf8,
  bad_plan_name, ltb,
}
use mmtk_ruby.Api.Builder.{
  PlanSelector, mark_sweep, immix, sticky_immix, other_plan, MmtkBuilder, is_utf8, select,
  mmtk_builder_set_plan, mmtk_builder_is_mark_sweep, mmtk_builder_is_immix,
  mmtk_builder_is_sticky_immix, is_mark_sweep, is_immix, is_sticky_immix,
}

-- What the three queries tell of a plan.
abbrev pub answers : PlanSelector → Bool × Bool × Bool
answers mark_sweep = (true, false, false)
answers immix = (false, true, false)
answers sticky_immix = (false, false, true)
answers (other_plan n) = (false, false, false)

queries-answers :
    (builder : MmtkBuilder)
    → (
      mmtk_builder_is_mark_sweep builder,
      mmtk_builder_is_immix builder,
      mmtk_builder_is_sticky_immix builder,
    )
      ≡ answers builder.plan
unfolding mmtk_builder_is_mark_sweep mmtk_builder_is_immix mmtk_builder_is_sticky_immix
    is_mark_sweep is_immix is_sticky_immix
queries-answers builder = by_plan builder.plan
  where
    by_plan : (p : PlanSelector) → (is_mark_sweep p, is_immix p, is_sticky_immix p) ≡ answers p
    by_plan mark_sweep = refl
    by_plan immix = refl
    by_plan sticky_immix = refl
    by_plan (other_plan n) = refl

-- All bytes are ASCII.
abbrev pub IsAscii : List ℕ → Type 0
IsAscii [] = Unit
IsAscii (c ∷ cs) = (ltb c 128 ≡ true) × IsAscii cs

pub is_utf8-IsAscii : (bytes : List ℕ) → IsAscii bytes → is_utf8 bytes ≡ true
unfolding is_utf8
is_utf8-IsAscii [] h = refl
is_utf8-IsAscii (a ∷ []) h = h.0
is_utf8-IsAscii (a ∷ b ∷ []) h = rw (h.0) (is_utf8-IsAscii (b ∷ []) h.1)
is_utf8-IsAscii (a ∷ b ∷ c ∷ []) h = rw (h.0) (is_utf8-IsAscii (b ∷ c ∷ []) h.1)
is_utf8-IsAscii (a ∷ b ∷ c ∷ d ∷ rest) h = rw (h.0) (is_utf8-IsAscii (b ∷ c ∷ d ∷ rest) h.1)

module _ (parse : List ℕ → Option PlanSelector) (builder : MmtkBuilder) (plan_name : List ℕ) where
  -- A name in ASCII that mmtk-core parses as a plan is accepted: of the three queries the one for
  -- that plan then says yes and the others no (all three say no for any other plan), and the
  -- builder's other options are as before.
  pub mmtk_builder_set_plan-queries :
      (p : PlanSelector)
      → IsAscii plan_name
      → parse plan_name ≡ some p
      → (builder' : MmtkBuilder) × (mmtk_builder_set_plan parse builder plan_name ≡ ok builder')
        × ((
          mmtk_builder_is_mark_sweep builder',
          mmtk_builder_is_immix builder',
          mmtk_builder_is_sticky_immix builder',
        )
            ≡ answers p)
        × (builder'.no_finalizer ≡ builder.no_finalizer)
        × (builder'.gc_trigger ≡ builder.gc_trigger)
  unfolding mmtk_builder_set_plan select
  mmtk_builder_set_plan-queries p ascii h =
      let builder' : MmtkBuilder = record builder { plan = p } in
      (builder', rw (is_utf8-IsAscii plan_name ascii, h) refl, queries-answers builder', refl, refl)

  -- A name that is not UTF-8 panics whatever mmtk-core would parse; one in UTF-8 that mmtk-core does
  -- not parse panics too.
  pub mmtk_builder_set_plan-panics :
      ((is_utf8 plan_name ≡ false) → mmtk_builder_set_plan parse builder plan_name ≡ panic not_utf8)
      × ((is_utf8 plan_name ≡ true)
          → parse plan_name ≡ none
          → mmtk_builder_set_plan parse builder plan_name ≡ panic bad_plan_name)
  unfolding mmtk_builder_set_plan select
  mmtk_builder_set_plan-panics = (λ h. rw h refl, λ h k. rw (h, k) refl)
