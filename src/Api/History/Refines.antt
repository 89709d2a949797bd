-- ===== src/Api/History/Refines.antt =====
-- mmtk/src/api.rs: requests in any order get the replies of the ideal binding.
use mmtk_ruby.Base.{
  ℕ, ◌≡◌, refl, ap, ◌∙◌, inl, inr, Bool, true, false, ◌==◌, ◌||◌, member, List, [], ◌∷◌, ◌++◌,
  Option, none, some, ok, Mutex, unlocked,
}
use mmtk_ruby.Base.HashSet
use mmtk_ruby.Base.HashSet.{contains-insert}
use mmtk_ruby.Vm.{ObjectReference}
use mmtk_ruby.Ppp as Ppp
use mmtk_ruby.Weak as Weak
use mmtk_ruby.Ppp.{set_ppps, register, register_many}
use mmtk_ruby.Ppp.Registry.{register_free, register_many-register_each}
use mmtk_ruby.Weak.{set_candidates, add_obj_free_candidate}
use mmtk_ruby.Weak.Candidates.{
  add_obj_free_candidate-appends, add_obj_free_candidates-appends,
  get_all_obj_free_candidates-takes,
}
use mmtk_ruby.Binding as Binding
use mmtk_ruby.Binding.{get_plan_name_c, EnvVar, RubyBinding, RubyBindingOptions}
use mmtk_ruby.Binding.Laws.{
  get_plan_name_c-fresh, get_plan_name_c-again, register_wb-inserts, is_wb-contains,
}
use mmtk_ruby.Globals.{
  Globals, binding-some, set_panic_hook, set_panic_hook-keeps, set_panic_hook-keeps_enabled,
}
use mmtk_ruby.Api.{
  on_binding, mmtk_plan_name, mmtk_add_obj_free_candidate, mmtk_add_obj_free_candidates,
  mmtk_get_all_obj_free_candidates, mmtk_register_ppp, mmtk_register_ppps,
  mmtk_register_wb_unprotected_object, mmtk_is_object_wb_unprotected, mmtk_enable_collection,
  mmtk_disable_collection, mmtk_is_collection_enabled, mmtk_init_binding, set_binding,
}
use mmtk_ruby.Api.History.{
  Request, enable_collection, disable_collection, is_collection_enabled, plan_name, add_candidate,
  add_candidates, get_all_candidates, register_ppp, register_ppps, register_wb_unprotected,
  is_wb_unprotected, flag, objects, quiet, answer, serve, Ideal, untouched, ideal_answer,
  ideal_serve, Holds, Stands, Represents,
}

holds_ap {ℓ} :
    {A : Type ℓ} {m : Mutex A} {a : A} (f : A → A)
    → Holds m a
    → Holds (record { status = m.status; value = f m.value }) (f a)
holds_ap f h = record { is_free = h.is_free; same = ap f h.same }

module _ (name : List ℕ) where
  Answered : Request → Globals → Ideal → Type 0
  Answered q g i =
      (g' : Globals) × (answer name q g ≡ ok (g', (ideal_answer name q i).1))
      × Represents name g' (ideal_answer name q i).0

  -- The globals with another binding.
  represents :
      (g : Globals) (b : RubyBinding) (i : Ideal)
      → Stands name g.gc_enabled b i
      → Represents name (record g { binding_cell = some b }) i
  represents g b i s = record { bound = b; is_bound = refl; stands = s }

  module _ (g : Globals) (i : Ideal) (r : Represents name g i) where
    answer-enable_collection : Answered enable_collection g i
    unfolding Answered answer mmtk_enable_collection
    answer-enable_collection =
        let s = r.stands in
        (
          record g { gc_enabled = true },
          refl,
          record {
            bound = r.bound;
            is_bound = r.is_bound;
            stands = record {
              enabled = refl;
              plan_name = s.plan_name;
              candidates = s.candidates;
              ppps = s.ppps;
              unprotected = s.unprotected;
            };
          },
        )

    answer-disable_collection : Answered disable_collection g i
    unfolding Answered answer mmtk_disable_collection
    answer-disable_collection =
        let s = r.stands in
        (
          record g { gc_enabled = false },
          refl,
          record {
            bound = r.bound;
            is_bound = r.is_bound;
            stands = record {
              enabled = refl;
              plan_name = s.plan_name;
              candidates = s.candidates;
              ppps = s.ppps;
              unprotected = s.unprotected;
            };
          },
        )

    answer-is_collection_enabled : Answered is_collection_enabled g i
    unfolding Answered answer mmtk_is_collection_enabled
    answer-is_collection_enabled = (g, ap (λ e. ok (g, flag e)) r.stands.enabled, r)

    answer-plan_name : member 0 name ≡ false → Answered plan_name g i
    unfolding Answered answer mmtk_plan_name on_binding
    answer-plan_name z =
        let b = r.bound in
        let s = r.stands in
        let b' : RubyBinding = record b { plan_name = unlocked (some name) } in
        let named : get_plan_name_c name b ≡ ok (name, b') = elim s.plan_name.cached [
          | inl n ↦ get_plan_name_c-fresh name b s.plan_name.is_free n z
          | inr n ↦ get_plan_name_c-again name name b s.plan_name.is_free n
        ] in
        (
          record g { binding_cell = some b' },
          rw (binding-some g b r.is_bound, named) refl,
          represents g b' i (record {
            enabled = s.enabled;
            plan_name = record { is_free = refl; cached = inr refl };
            candidates = s.candidates;
            ppps = s.ppps;
            unprotected = s.unprotected;
          }),
        )

    answer-add_candidate : (o : ObjectReference) → Answered (add_candidate o) g i
    unfolding Answered answer quiet mmtk_add_obj_free_candidate on_binding
    answer-add_candidate o =
        let s = r.stands in
        let p = r.bound.weak_proc in
        let b' : RubyBinding = record r.bound {
          weak_proc = set_candidates p (p.obj_free_candidates.value ++ o ∷ []);
        } in
        (
          record g { binding_cell = some b' },
          rw
              (
                binding-some g r.bound r.is_bound,
                add_obj_free_candidate-appends p o s.candidates.is_free,
              )
              refl,
          represents g b' (ideal_answer name (add_candidate o) i).0 (record {
            enabled = s.enabled;
            plan_name = s.plan_name;
            candidates = holds_ap (λ xs. xs ++ o ∷ []) s.candidates;
            ppps = s.ppps;
            unprotected = s.unprotected;
          }),
        )

    answer-add_candidates : (os : List ObjectReference) → Answered (add_candidates os) g i
    unfolding Answered answer quiet mmtk_add_obj_free_candidates on_binding
    answer-add_candidates os =
        let s = r.stands in
        let p = r.bound.weak_proc in
        let b' : RubyBinding = record r.bound {
          weak_proc = set_candidates p (p.obj_free_candidates.value ++ os);
        } in
        (
          record g { binding_cell = some b' },
          rw
              (
                binding-some g r.bound r.is_bound,
                add_obj_free_candidates-appends p os s.candidates.is_free,
              )
              refl,
          represents g b' (ideal_answer name (add_candidates os) i).0 (record {
            enabled = s.enabled;
            plan_name = s.plan_name;
            candidates = holds_ap (λ xs. xs ++ os) s.candidates;
            ppps = s.ppps;
            unprotected = s.unprotected;
          }),
        )

    answer-get_all_candidates : Answered get_all_candidates g i
    unfolding Answered answer mmtk_get_all_obj_free_candidates on_binding
    answer-get_all_candidates =
        let s = r.stands in
        let p = r.bound.weak_proc in
        let b' : RubyBinding = record r.bound { weak_proc = set_candidates p [] } in
        let g' : Globals = record g { binding_cell = some b' } in
        (
          g',
          rw
                (
                  binding-some g r.bound r.is_bound,
                  get_all_obj_free_candidates-takes p s.candidates.is_free,
                )
                refl
              ∙ ap (λ os. ok (g', objects os)) s.candidates.same,
          represents g b' (ideal_answer name get_all_candidates i).0 (record {
            enabled = s.enabled;
            plan_name = s.plan_name;
            candidates = record { is_free = s.candidates.is_free; same = refl };
            ppps = s.ppps;
            unprotected = s.unprotected;
          }),
        )

    answer-register_ppp : (o : ObjectReference) → Answered (register_ppp o) g i
    unfolding Answered answer quiet mmtk_register_ppp on_binding
    answer-register_ppp o =
        let s = r.stands in
        let p = r.bound.ppp_registry in
        let b' : RubyBinding = record r.bound {
          ppp_registry = set_ppps p (p.ppps.value ++ o ∷ []);
        } in
        (
          record g { binding_cell = some b' },
          rw (binding-some g r.bound r.is_bound, register_free p o s.ppps.is_free) refl,
          represents g b' (ideal_answer name (register_ppp o) i).0 (record {
            enabled = s.enabled;
            plan_name = s.plan_name;
            candidates = s.candidates;
            ppps = holds_ap (λ xs. xs ++ o ∷ []) s.ppps;
            unprotected = s.unprotected;
          }),
        )

    answer-register_ppps : (os : List ObjectReference) → Answered (register_ppps os) g i
    unfolding Answered answer quiet mmtk_register_ppps on_binding
    answer-register_ppps os =
        let s = r.stands in
        let p = r.bound.ppp_registry in
        let b' : RubyBinding = record r.bound { ppp_registry = set_ppps p (p.ppps.value ++ os) } in
        (
          record g { binding_cell = some b' },
          rw
              (
                binding-some g r.bound r.is_bound,
                (register_many-register_each p os s.ppps.is_free).1,
              )
              refl,
          represents g b' (ideal_answer name (register_ppps os) i).0 (record {
            enabled = s.enabled;
            plan_name = s.plan_name;
            candidates = s.candidates;
            ppps = holds_ap (λ xs. xs ++ os) s.ppps;
            unprotected = s.unprotected;
          }),
        )

    answer-register_wb : (o : ObjectReference) → Answered (register_wb_unprotected o) g i
    unfolding Answered answer quiet mmtk_register_wb_unprotected_object on_binding
    answer-register_wb o =
        let s = r.stands in
        let set = r.bound.wb_unprotected_objects.value in
        let b' : RubyBinding = record r.bound {
          wb_unprotected_objects = unlocked (HashSet.insert set o);
        } in
        (
          record g { binding_cell = some b' },
          rw
              (
                binding-some g r.bound r.is_bound,
                register_wb-inserts r.bound o s.unprotected.is_free,
              )
              refl,
          represents g b' (ideal_answer name (register_wb_unprotected o) i).0 (record {
            enabled = s.enabled;
            plan_name = s.plan_name;
            candidates = s.candidates;
            ppps = s.ppps;
            unprotected = record {
              is_free = refl;
              same = λ x. contains-insert set o x ∙ ap (λ t. o == x || t) (s.unprotected.same x);
            };
          }),
        )

    answer-is_wb_unprotected : (o : ObjectReference) → Answered (is_wb_unprotected o) g i
    unfolding Answered answer mmtk_is_object_wb_unprotected
    answer-is_wb_unprotected o =
        let s = r.stands in
        (
          g,
          rw (binding-some g r.bound r.is_bound, is_wb-contains r.bound o s.unprotected.is_free)
                refl
              ∙ ap (λ t. ok (g, flag t)) (s.unprotected.same o),
          r,
        )

    answer-ideal : (q : Request) → member 0 name ≡ false → Answered q g i
    answer-ideal enable_collection z = answer-enable_collection
    answer-ideal disable_collection z = answer-disable_collection
    answer-ideal is_collection_enabled z = answer-is_collection_enabled
    answer-ideal plan_name z = answer-plan_name z
    answer-ideal (add_candidate o) z = answer-add_candidate o
    answer-ideal (add_candidates os) z = answer-add_candidates os
    answer-ideal get_all_candidates z = answer-get_all_candidates
    answer-ideal (register_ppp o) z = answer-register_ppp o
    answer-ideal (register_ppps os) z = answer-register_ppps os
    answer-ideal (register_wb_unprotected o) z = answer-register_wb o
    answer-ideal (is_wb_unprotected o) z = answer-is_wb_unprotected o

  serve-ideal :
      (qs : List Request) (g : Globals) (i : Ideal)
      → member 0 name ≡ false
      → Represents name g i
      → (g' : Globals) × (serve name qs g ≡ ok (g', (ideal_serve name qs i).1))
        × Represents name g' (ideal_serve name qs i).0
  unfolding serve Answered
  serve-ideal [] g i z r = (g, refl, r)
  serve-ideal (q ∷ qs) g i z r =
      let (g₁, e, r₁) = answer-ideal g i r q z in
      let (g₂, e₂, r₂) = serve-ideal qs g₁ (ideal_answer name q i).0 z r₁ in
      (g₂, rw (e, e₂) refl, r₂)

  Stands-new :
      (env : EnvVar → Option (List ℕ)) (options : RubyBindingOptions) (mmtk : ℕ) (enabled : Bool)
      → enabled ≡ false
      → Stands name enabled (Binding.new mmtk options env).0 untouched
  unfolding Binding.new Weak.new Ppp.new HashSet.contains
  Stands-new env options mmtk enabled h = record {
    enabled = h;
    plan_name = record { is_free = refl; cached = inl refl };
    candidates = record { is_free = refl; same = refl };
    ppps = record { is_free = refl; same = refl };
    unprotected = record { is_free = refl; same = λ o. refl };
  }

  -- In a process where collection is not enabled and no binding is set, initialisation succeeds, and
  -- then any requests in any order get the replies of the ideal binding: no call panics or waits,
  -- the candidates are a queue, an object is WB-unprotected exactly if it was registered, and the
  -- cache of the plan name does not show. The name of the plan has no zero byte. At the end the
  -- globals stand for the ideal binding.
  pub serve-init_ideal :
      (qs : List Request) (env : EnvVar → Option (List ℕ)) (options : RubyBindingOptions) (mmtk : ℕ)
      (g : Globals)
      → member 0 name ≡ false
      → g.binding_cell ≡ none
      → g.gc_enabled ≡ false
      → (g₀ g' : Globals) × (mmtk_init_binding env options mmtk g ≡ ok g₀)
        × (serve name qs g₀ ≡ ok (g', (ideal_serve name qs untouched).1))
        × Represents name g' (ideal_serve name qs untouched).0
  unfolding mmtk_init_binding set_binding
  serve-init_ideal qs env options mmtk g z h off =
      let b = Binding.new mmtk options env in
      let g₀ : Globals = record (set_panic_hook g) { suffix_size = b.1; binding_cell = some b.0 } in
      let stands =
        Stands-new env options mmtk g₀.gc_enabled (set_panic_hook-keeps_enabled g ∙ off) in
      let r₀ : Represents name g₀ untouched = record {
        bound = b.0;
        is_bound = refl;
        stands = stands;
      } in
      let (g', e, r) = serve-ideal qs g₀ untouched z r₀ in
      (g₀, g', rw (set_panic_hook-keeps g, h) refl, e, r)
