-- ===== src/Weak/ObjFree/Laws.antt =====
-- mmtk/src/weak_proc.rs: each candidate for `obj_free` is freed or kept.
use mathlib.Core.List.{append-nil, append_assoc}
use mmtk_ruby.Base.{
  ◌≡◌, refl, ◌∙◌, Bool, true, false, not, List, [], ◌∷◌, ◌++◌, map, keep, arith, Bool-cases, inl,
  inr, ok, free, length, ◌+◌,
}
use mmtk_ruby.Vm.{ObjectReference, Core, RubyUpcalls}
use mmtk_ruby.Weak.{WeakProcessor, set_candidates, forward}
use mmtk_ruby.Weak.ObjFree.{process_candidate, process_candidates, do_work}

-- Calls of `obj_free`, in the order of the list.
abbrev pub free_all : {W : Type 0} → RubyUpcalls W → List ObjectReference → W → W
free_all up [] w = w
free_all up (object ∷ objects) w = free_all up objects (up.call_obj_free object w)

-- Two states in which the same objects are reachable, and forwarded alike.
abbrev pub SameHeap : {W : Type 0} → Core W → W → W → Type 0
SameHeap core w w' =
    (o : ObjectReference)
    → (core.is_reachable w' o ≡ core.is_reachable w o)
      × (core.get_forwarded_object w' o ≡ core.get_forwarded_object w o)

module _ {W : Type 0} (core : Core W) (up : RubyUpcalls W)
    (quiet : (o : ObjectReference) (w : W) → SameHeap core w (up.call_obj_free o w)) where
  abbrev pub dead : W → ObjectReference → Bool
  dead w o = not (core.is_reachable w o)

  keep_one :
      (w₀ : W) (o : ObjectReference) (news : List ObjectReference) (w : W)
      → SameHeap core w₀ w
      → core.is_reachable w₀ o ≡ true
      → process_candidate core up o news w ≡ (news ++ forward core w₀ o ∷ [], w)
  unfolding process_candidate
  keep_one w₀ o news w h alive = rw ((h o).0, alive, (h o).1)

  free_one :
      (w₀ : W) (o : ObjectReference) (news : List ObjectReference) (w : W)
      → SameHeap core w₀ w
      → core.is_reachable w₀ o ≡ false
      → process_candidate core up o news w ≡ (news, up.call_obj_free o w)
  unfolding process_candidate
  free_one w₀ o news w h gone = rw ((h o).0, gone)

  process_candidates_lem :
      (w₀ : W) (objects news : List ObjectReference) (w : W)
      → SameHeap core w₀ w
      → process_candidates core up objects news w ≡ (
        news ++ map (forward core w₀) (keep (core.is_reachable w₀) objects),
        free_all up (keep (dead w₀) objects) w,
      )
  unfolding process_candidates
  process_candidates_lem w₀ [] news w h = rw append-nil
  process_candidates_lem w₀ (o ∷ os) news w h = elim (Bool-cases (core.is_reachable w₀ o)) [
    | inl alive ↦ rw (
      keep_one w₀ o news w h alive,
      alive,
      process_candidates_lem w₀ os (news ++ forward core w₀ o ∷ []) w h,
      append_assoc,
    )
    | inr gone ↦
        rw (free_one w₀ o news w h gone, gone)
          (process_candidates_lem w₀ os news (up.call_obj_free o w)
            (λ x. ((quiet o w x).0 ∙ (h x).0, (quiet o w x).1 ∙ (h x).1)))
  ]

  length-keep :
      (p : ObjectReference → Bool) (xs : List ObjectReference)
      → length xs ≡ length (keep p xs) + length (keep (λ x. not (p x)) xs)
  length-keep p [] = refl
  length-keep p (x ∷ xs) = ground (arith, length-keep p xs)

  -- While nobody holds the lock, and if `obj_free` changes neither what is reachable nor where
  -- objects have moved: `obj_free` is called for the unreachable candidates, once for each entry
  -- and in order, and for no other object; the reachable candidates stay, forwarded and in order;
  -- and each candidate is in one of the two groups.
  pub do_work-partition :
      (p : WeakProcessor) (w : W)
      → p.obj_free_candidates.status ≡ free
      → (do_work core up p w
          ≡ ok (
            set_candidates p
                (map (forward core w) (keep (core.is_reachable w) p.obj_free_candidates.value)),
            free_all up (keep (dead w) p.obj_free_candidates.value) w,
          ))
        × (length p.obj_free_candidates.value
            ≡ length (keep (core.is_reachable w) p.obj_free_candidates.value)
              + length (keep (dead w) p.obj_free_candidates.value))
  unfolding do_work
  do_work-partition p w h = (
    rw (h, process_candidates_lem w p.obj_free_candidates.value [] w (λ o. (refl, refl))),
    length-keep (core.is_reachable w) p.obj_free_candidates.value,
  )
