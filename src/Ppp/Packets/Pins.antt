-- ===== src/Ppp/Packets/Pins.antt =====
-- mmtk/src/ppp.rs: the pin bits that `PinPPPChildren` sets are those that `UnpinPPPChildren` clears.
use mathlib.Core.List.{append_assoc}
use mmtk_ruby.Base.{
  ◌+◌, ◌≤◌, ◌≡◌, refl, Bool, true, false, ◌||◌, List, [], ◌∷◌, ◌++◌, arith, if◌then◌else◌, ltb,
  count, count-append, All, ok,
}
use mmtk_ruby.Build.{Build}
use mmtk_ruby.Vm.{ObjectReference, Core, PinBits}
use mmtk_ruby.Ppp.Packets.{pin_loop, unpin_do_work}

module _ {W : Type 0} (core : Core W) where
  -- With `base` the pins of others: the objects of `l` are pinned too, each of them for one entry
  -- of `l`, and for nobody else.
  pub record Owns (base : ObjectReference → Bool) (l : List ObjectReference) (w : W) : Type 0 where
    pub pins : (x : ObjectReference) → core.is_pinned w x ≡ (base x || ltb 0 (count x l))
    pub once : (x : ObjectReference) → count x l + (if base x then 1 else 0) ≤ 1

  -- Nothing is owned at the start.
  pub Owns-nil : (w : W) → Owns (core.is_pinned w) [] w
  Owns-nil w = record { pins = λ x. ground arith; once = λ x. ground arith }

  module _ (bits : PinBits core) (base : ObjectReference → Bool) where
    pin_one :
        (l : List ObjectReference) (o : ObjectReference) (w : W)
        → Owns base l w
        → Owns base (if (core.pin_object o w).0 then l ++ o ∷ [] else l) (core.pin_object o w).1
    pin_one l o w v = record {
      pins = λ x. ground (
        arith,
        bits.pin_tells o w,
        bits.pin_sets o w x,
        v.pins x,
        v.pins o,
        v.once x,
        count-append l (o ∷ []) x,
      );
      once = λ x. ground (
        arith,
        bits.pin_tells o w,
        v.pins o,
        v.pins x,
        v.once x,
        v.once o,
        count-append l (o ∷ []) x,
      );
    }

    pub pin_loop-Owns :
        (pre os newly : List ObjectReference) (w : W)
        → Owns base (pre ++ newly) w
        → Owns base (pre ++ (pin_loop core os newly w).0) (pin_loop core os newly w).1
    unfolding pin_loop
    pin_loop-Owns pre [] newly w v = v
    pin_loop-Owns pre (o ∷ os) newly w v =
        pin_loop-Owns pre os (if (core.pin_object o w).0 then newly ++ o ∷ [] else newly)
          (core.pin_object o w).1 (regroup (core.pin_object o w).0 (pin_one (pre ++ newly) o w v))
      where
        regroup :
            (b : Bool)
            → Owns base
                (if b then (pre ++ newly) ++ o ∷ [] else pre ++ newly)
                (core.pin_object o w).1
            → Owns base (pre ++ (if b then newly ++ o ∷ [] else newly)) (core.pin_object o w).1
        regroup true v' = rw append_assoc at v'
        regroup false v' = v'

    -- What is pinned stays so, and every object of the list is pinned in the end.
    pin_loop-keeps :
        (os newly : List ObjectReference) (w : W) (x : ObjectReference)
        → core.is_pinned w x ≡ true
        → core.is_pinned (pin_loop core os newly w).1 x ≡ true
    unfolding pin_loop
    pin_loop-keeps [] newly w x h = h
    pin_loop-keeps (o ∷ os) newly w x h =
        pin_loop-keeps os _ (core.pin_object o w).1 x (ground (arith, bits.pin_sets o w x))

    pub pin_loop-pins :
        (os newly : List ObjectReference) (w : W)
        → All (λ x. core.is_pinned (pin_loop core os newly w).1 x ≡ true) os
    unfolding pin_loop
    pin_loop-pins [] newly w = tt
    pin_loop-pins (o ∷ os) newly w = (
      pin_loop-keeps os (if (core.pin_object o w).0 then newly ++ o ∷ [] else newly)
          (core.pin_object o w).1 o (ground (arith, bits.pin_sets o w o)),
      pin_loop-pins os (if (core.pin_object o w).0 then newly ++ o ∷ [] else newly)
          (core.pin_object o w).1,
    )

    unpin_one :
        (l : List ObjectReference) (o : ObjectReference) (w : W)
        → Owns base (o ∷ l) w
        → ((core.unpin_object o w).0 ≡ true) × Owns base l (core.unpin_object o w).1
    unpin_one l o w v = (
      ground (arith, bits.unpin_tells o w, v.pins o),
      record {
        pins = λ x. ground (arith, bits.unpin_clears o w x, v.pins x, v.once x);
        once = λ x. ground (arith, v.once x);
      },
    )

    -- Unpinning the owned objects never finds one unpinned, and gives the pins of others back.
    pub unpin_do_work-Owns :
        (build : Build) (l : List ObjectReference) (w : W)
        → Owns base l w
        → (w' : W) × (unpin_do_work build core l w ≡ ok w')
          × ((x : ObjectReference) → core.is_pinned w' x ≡ base x)
    unfolding unpin_do_work
    unpin_do_work-Owns build [] w v = (w, refl, λ x. ground (arith, v.pins x))
    unpin_do_work-Owns build (o ∷ l) w v =
        let (t, v') = unpin_one l o w v in
        let (w', e, h) = unpin_do_work-Owns build l (core.unpin_object o w).1 v' in
        (w', rw t (ground arith), h)
