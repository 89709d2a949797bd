-- ===== src/Ppp/Packets/Cycle.antt =====
-- mmtk/src/ppp.rs: a whole GC leaves the pin bits as it found them.
use mathlib.Core.List.{append-nil}
use mathlib.Core.Path.{subst₂}
use mmtk_ruby.Base.{
  ◌≡◌, refl, ap, ◌∙◌, Bool, true, false, List, [], ◌∷◌, ◌++◌, if◌then◌else◌, All, some, Outcome, ok,
  ◌>>=◌, free, sym, ok-injective,
}
use mmtk_ruby.Build.{Build}
use mmtk_ruby.Vm.{
  ObjectReference, Core, RubyUpcalls, PinBits, SamePins, Script, finish, visit, Keeps,
}
use mmtk_ruby.Stage.{vm_ref_closure}
use mmtk_ruby.Packet.{remove_dead_ppps, unpin_ppp_children}
use mmtk_ruby.Abi.Tls.{GcThreadTls, IsIdle, from_vwt_check-IsIdle, with_object_closure-ok}
use mmtk_ruby.Ppp.{PppRegistry, set_pinned, cleanup_ppps}
use mmtk_ruby.Ppp.Packets.{
  PinLocals, visit_child, mark_ppps, no_locals, pin_loop, pin_do_work, unpin_do_work,
}
use mmtk_ruby.Ppp.Packets.Marking.{pinned_visits, children_of, mark_ppps-children_of}
use mmtk_ruby.Ppp.Packets.Pins.{Owns, Owns-nil, pin_loop-Owns, pin_loop-pins, unpin_do_work-Owns}

module _ {W : Type 0} (build : Build) (core : Core W) (up : RubyUpcalls W) where
  -- The `PinPPPChildren` packets, one after another on one worker.
  abbrev pub pin_packets :
      List (List ObjectReference)
      → GcThreadTls PinLocals W
      → PppRegistry
      → W
      → Outcome (PppRegistry × GcThreadTls PinLocals W × W)
  pin_packets [] tls r w = ok (r, tls, w)
  pin_packets (ppps ∷ rest) tls r w =
      pin_do_work build core up ppps (some tls) r w >>= λ q. pin_packets rest q.1 q.0 q.2

  -- What a packet does on an idle worker while the lock is free.
  pub pin_do_work_lem :
      (ppps : List ObjectReference) (tls : GcThreadTls PinLocals W) (r : PppRegistry) (w : W)
      → IsIdle tls
      → r.pinned_ppp_children.status ≡ free
      → let c = children_of up ppps w in
        let p = pin_loop core c.0 [] c.1 in
        pin_do_work build core up ppps (some tls) r w
        ≡ ok (set_pinned r (r.pinned_ppp_children.value ++ p.0), tls, p.1)
  unfolding pin_do_work
  pin_do_work_lem ppps tls r w idle h =
      let (n, e) = mark_ppps-children_of up ppps no_locals w in
      rw (
        from_vwt_check-IsIdle build tls idle,
        with_object_closure-ok build visit_child (mark_ppps up ppps) tls no_locals w idle e,
        h,
      )

module _ {W : Type 0} (build : Build) (core : Core W) (up : RubyUpcalls W) (bits : PinBits core)
    (quiet : (obj : ObjectReference) (w : W)
      → Keeps (SamePins core w) (up.call_gc_mark_children obj w)) where
  -- CRuby's marking functions leave the pin bits alone, if the visits do.
  pinned_visits-SamePins :
      (w : W) (code : Script W)
      → Keeps (SamePins core w) code
      → SamePins core w (pinned_visits code).1
  pinned_visits-SamePins w (finish w') k = k
  pinned_visits-SamePins w (visit w' object pin rest) k =
      pinned_visits-SamePins w (rest w' object) (k.1 w' object k.0)

  round-SamePins :
      (o : ObjectReference) (w : W) (b : Bool)
      → SamePins core w (if b then ([], w) else pinned_visits (up.call_gc_mark_children o w)).1
  round-SamePins o w true x = refl
  round-SamePins o w false x = pinned_visits-SamePins w (up.call_gc_mark_children o w) (quiet o w) x

  children_of-SamePins :
      (ppps : List ObjectReference) (w : W) → SamePins core w (children_of up ppps w).1
  children_of-SamePins [] w x = refl
  children_of-SamePins (o ∷ os) w x =
      children_of-SamePins os
        (if up.is_no_longer_ppp o w
          then ([], w)
          else pinned_visits (up.call_gc_mark_children o w)).1
        x
      ∙ round-SamePins o w (up.is_no_longer_ppp o w) x

  Owns-SamePins :
      (base : ObjectReference → Bool) (l : List ObjectReference) (w w' : W)
      → SamePins core w w'
      → Owns core base l w
      → Owns core base l w'
  Owns-SamePins base l w w' same v = record { pins = λ x. same x ∙ v.pins x; once = v.once }

  -- On an idle worker, with the lock free, and the pin bits as documented and left alone by CRuby's
  -- marking, one `PinPPPChildren` packet succeeds; then every object
  -- that a child visit of its PPPs wants pinned is pinned, the list of pinned children has grown at
  -- its end by those that were not pinned before, and the PPPs are untouched.
  pub pin_do_work-pins :
      (ppps : List ObjectReference) (tls : GcThreadTls PinLocals W) (r : PppRegistry) (w : W)
      → IsIdle tls
      → r.pinned_ppp_children.status ≡ free
      → (newly : List ObjectReference) × (w' : W) × (pin_do_work build core up ppps (some tls) r w
          ≡ ok (set_pinned r (r.pinned_ppp_children.value ++ newly), tls, w'))
        × All (λ x. core.is_pinned w' x ≡ true) (children_of up ppps w).0
        × Owns core (core.is_pinned w) newly w'
  pin_do_work-pins ppps tls r w idle h =
      let c = children_of up ppps w in
      let p = pin_loop core c.0 [] c.1 in
      (
        p.0,
        p.1,
        pin_do_work_lem build core up ppps tls r w idle h,
        pin_loop-pins core bits (core.is_pinned w) c.0 [] c.1,
        pin_loop-Owns core bits (core.is_pinned w) [] c.0 [] c.1 (
            Owns-SamePins (core.is_pinned w) [] w c.1 (children_of-SamePins ppps w)
              (Owns-nil core w)),
      )

  pin_do_work-Owns :
      (base : ObjectReference → Bool) (ppps : List ObjectReference) (tls : GcThreadTls PinLocals W)
      (r : PppRegistry) (w : W)
      → IsIdle tls
      → r.pinned_ppp_children.status ≡ free
      → Owns core base r.pinned_ppp_children.value w
      → (l : List ObjectReference) × (w' : W) × (pin_do_work build core up ppps (some tls) r w
          ≡ ok (set_pinned r l, tls, w'))
        × Owns core base l w'
  pin_do_work-Owns base ppps tls r w idle h v =
      let c = children_of up ppps w in
      let p = pin_loop core c.0 [] c.1 in
      (
        r.pinned_ppp_children.value ++ p.0,
        p.1,
        pin_do_work_lem build core up ppps tls r w idle h,
        pin_loop-Owns core bits base r.pinned_ppp_children.value c.0 [] c.1
            (Owns-SamePins base _ w c.1 (children_of-SamePins ppps w) (rw append-nil v)),
      )

  pin_packets-Owns :
      (base : ObjectReference → Bool) (packets : List (List ObjectReference))
      (tls : GcThreadTls PinLocals W) (r : PppRegistry) (w : W)
      → IsIdle tls
      → r.pinned_ppp_children.status ≡ free
      → Owns core base r.pinned_ppp_children.value w
      → (l : List ObjectReference) × (w' : W) × (pin_packets build core up packets tls r w
          ≡ ok (set_pinned r l, tls, w'))
        × Owns core base l w'
  pin_packets-Owns base [] tls r w idle h v = (r.pinned_ppp_children.value, w, refl, v)
  pin_packets-Owns base (ppps ∷ rest) tls r w idle h v =
      let (l, w', e, v') = pin_do_work-Owns base ppps tls r w idle h v in
      let (l', w'', e', v'') = pin_packets-Owns base rest tls (set_pinned r l) w' idle h v' in
      (l', w'', rw e e', v'')

  -- On an idle worker, with the lock free, no child pinned yet, and the pin bits as documented and
  -- left alone by CRuby's marking: the `PinPPPChildren` packets of a GC all succeed, the worker is
  -- idle again, and the registry differs by the list of pinned children only.
  pub pin_packets-total :
      (packets : List (List ObjectReference)) (tls : GcThreadTls PinLocals W) (r : PppRegistry)
      (w : W)
      → IsIdle tls
      → r.pinned_ppp_children.status ≡ free
      → r.pinned_ppp_children.value ≡ []
      → (l : List ObjectReference) × (w' : W) × (pin_packets build core up packets tls r w
          ≡ ok (set_pinned r l, tls, w'))
  pin_packets-total packets tls r w idle h e =
      let (l, w', run, v) =
        pin_packets-Owns (core.is_pinned w) packets tls r w idle h (rw e (Owns-nil core w)) in
      (l, w', run)

  -- A moving GC gives back the pin bits that it found, if they are as documented and CRuby's marking
  -- leaves them alone, the worker is idle, the lock free, and no child pinned yet. After its `PinPPPChildren` packets, and
  -- whatever else happens that leaves the pin bits alone, `cleanup_ppps` submits the removal of
  -- dead PPPs and one `UnpinPPPChildren` packet with the pinned children, and empties their list;
  -- that packet never finds an object unpinned, and then every object is pinned exactly if it was
  -- before the GC.
  pub pin_cycle :
      (packets : List (List ObjectReference)) (tls : GcThreadTls PinLocals W) (r : PppRegistry)
      (w : W) (l : List ObjectReference) (w' w'' : W)
      → IsIdle tls
      → r.pinned_ppp_children.status ≡ free
      → r.pinned_ppp_children.value ≡ []
      → pin_packets build core up packets tls r w ≡ ok (set_pinned r l, tls, w')
      → SamePins core w' w''
      → core.current_gc_may_move_object w'' ≡ true
      → (cleanup_ppps build core (set_pinned r l) w''
          ≡ ok (
            set_pinned r [],
            record { stage = vm_ref_closure; packets = remove_dead_ppps ∷ [] }
                ∷ record { stage = vm_ref_closure; packets = unpin_ppp_children l ∷ [] }
                ∷ [],
          ))
        × (w₃ : W) × (unpin_do_work build core l w'' ≡ ok w₃)
        × SamePins core w w₃
  unfolding cleanup_ppps
  pin_cycle packets tls r w l w' w'' idle h e run same move =
      let (l', v, run', owns) =
        pin_packets-Owns (core.is_pinned w) packets tls r w idle h (rw e (Owns-nil core w)) in
      let eq = ok-injective (sym run' ∙ run) in
      let owns' : Owns core (core.is_pinned w) l w'' =
        Owns-SamePins (core.is_pinned w) l w' w'' same (
          subst₂ (Owns core (core.is_pinned w)) (ap (λ q. q.0.pinned_ppp_children.value) eq)
            (ap (λ q. q.2) eq) owns) in
      let (w₃, unpinned, back) =
        unpin_do_work-Owns core bits (core.is_pinned w) build l w'' owns' in
      (rw (move, h), w₃, unpinned, back)
