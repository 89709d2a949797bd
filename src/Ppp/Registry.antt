-- ===== src/Ppp/Registry.antt =====
-- mmtk/src/ppp.rs: registration, and the packets of a GC.
use mathlib.Core.List.{append_assoc, append-nil}
use mmtk_ruby.Base.{
  ◌≡◌, refl, sym, ap, ◌∙◌, true, false, List, [], ◌∷◌, ◌++◌, map, arith, concat, chunks,
  concat-chunks, chunks-IsChunked, IsChunked, Option, some, Outcome, ok, ◌>>=◌, free,
}
use mmtk_ruby.Build.{Build}
use mmtk_ruby.Stage.{prepare, vm_ref_closure}
use mmtk_ruby.Vm.{ObjectReference, Core}
use mmtk_ruby.Packet.{Packet, pin_ppp_children, remove_dead_ppps, unpin_ppp_children}
use mmtk_ruby.Abi.Tls.{GcThreadTls, IsIdle, from_vwt_check-IsIdle, worker-IsIdle}
use mmtk_ruby.Ppp.{
  PppRegistry, set_ppps, set_pinned, register, push_all, register_many, packet_size, pin_children,
  cleanup_ppps,
}

push_all-append : (xs ys : List ObjectReference) → push_all xs ys ≡ xs ++ ys
unfolding push_all
push_all-append xs [] = sym (append-nil xs)
push_all-append xs (y ∷ ys) = push_all-append (xs ++ y ∷ []) ys ∙ append_assoc xs (y ∷ []) ys

-- Calls of `register`, one for each object.
abbrev pub register_each : PppRegistry → List ObjectReference → Outcome PppRegistry
register_each r [] = ok r
register_each r (object ∷ objects) = register r object >>= λ r'. register_each r' objects

pub register_free :
    (r : PppRegistry) (object : ObjectReference)
    → r.ppps.status ≡ free
    → register r object ≡ ok (set_ppps r (r.ppps.value ++ object ∷ []))
unfolding register
register_free r object h = rw h

register_each_free :
    (objects : List ObjectReference) (r : PppRegistry)
    → r.ppps.status ≡ free
    → register_each r objects ≡ ok (set_ppps r (r.ppps.value ++ objects))
register_each_free [] r h = rw append-nil
register_each_free (o ∷ os) r h = rw (
  register_free r o h,
  register_each_free os (set_ppps r (r.ppps.value ++ o ∷ [])) h,
  append_assoc r.ppps.value (o ∷ []) os,
)

-- While nobody holds the lock, `register_many` leaves the registry as `register` does when it is
-- called for each object in turn: the objects stand behind those that were there, in order, and
-- the pinned children are as before.
pub register_many-register_each :
    (r : PppRegistry) (objects : List ObjectReference)
    → r.ppps.status ≡ free
    → (register_many r objects ≡ register_each r objects)
      × (register_many r objects ≡ ok (set_ppps r (r.ppps.value ++ objects)))
unfolding register_many
register_many-register_each r objects h = rw (register_each_free objects r h) (
  ground (arith, push_all-append r.ppps.value objects),
  ground (arith, push_all-append r.ppps.value objects),
)

-- The PPPs of all the packets of a submission, in order.
abbrev pub ppps_of : List Packet → List (List ObjectReference)
ppps_of [] = []
ppps_of (pin_ppp_children ppps ∷ packets) = ppps ∷ ppps_of packets
ppps_of (_ ∷ packets) = ppps_of packets

ppps_of-map : (xss : List (List ObjectReference)) → ppps_of (map pin_ppp_children xss) ≡ xss
ppps_of-map [] = refl
ppps_of-map (xs ∷ xss) = ap (λ r. xs ∷ r) (ppps_of-map xss)

module _ {S W : Type 0} (build : Build) (core : Core W) (w : W) where
  -- In a moving GC, on a worker thread and with the lock free, the `Prepare` bucket gets one batch
  -- of `PinPPPChildren` packets; together they hold every registered PPP once, in order, 512 to a
  -- packet, the last one shorter but not empty.
  pub pin_children-partition :
      (tls : GcThreadTls S W) (r : PppRegistry)
      → core.current_gc_may_move_object w ≡ true
      → IsIdle tls
      → r.ppps.status ≡ free
      → (packets : List Packet) × (pin_children build core (some tls) r w
          ≡ ok (record { stage = prepare; packets = packets } ∷ []))
        × (packets ≡ map pin_ppp_children (ppps_of packets))
        × (concat (ppps_of packets) ≡ r.ppps.value)
        × IsChunked 512 (ppps_of packets)
  unfolding pin_children
  pin_children-partition tls r move idle unlocked = (
    map pin_ppp_children (chunks packet_size r.ppps.value),
    rw (move, from_vwt_check-IsIdle build tls idle, worker-IsIdle tls idle, unlocked),
    rw (ppps_of-map (chunks packet_size r.ppps.value)),
    rw (ppps_of-map (chunks packet_size r.ppps.value))
        (concat-chunks packet_size r.ppps.value (omega arith)),
    rw (ppps_of-map (chunks packet_size r.ppps.value))
        (chunks-IsChunked packet_size r.ppps.value (omega arith)),
  )

  -- In a non-moving GC nothing is submitted, whatever the thread and the locks are like.
  pub pin_children-non_moving :
      (tls : Option (GcThreadTls S W)) (r : PppRegistry)
      → core.current_gc_may_move_object w ≡ false
      → pin_children build core tls r w ≡ ok []
  unfolding pin_children
  pin_children-non_moving tls r h = rw h

module _ {W : Type 0} (build : Build) (core : Core W) (w : W) where
  -- Outside a moving GC no child may be pinned; only the removal of dead PPPs is submitted.
  pub cleanup_ppps-non_moving :
      (r : PppRegistry)
      → core.current_gc_may_move_object w ≡ false
      → r.pinned_ppp_children.status ≡ free
      → r.pinned_ppp_children.value ≡ []
      → cleanup_ppps build core r w
        ≡ ok (
          set_pinned r [],
          record { stage = vm_ref_closure; packets = remove_dead_ppps ∷ [] } ∷ [],
        )
  unfolding cleanup_ppps
  cleanup_ppps-non_moving r still unlocked empty = rw (still, unlocked, empty) (ground arith)

  -- In a moving GC the children that were pinned are submitted for unpinning, and the list is empty.
  pub cleanup_ppps-moving :
      (r : PppRegistry)
      → core.current_gc_may_move_object w ≡ true
      → r.pinned_ppp_children.status ≡ free
      → cleanup_ppps build core r w
        ≡ ok (
          set_pinned r [],
          record { stage = vm_ref_closure; packets = remove_dead_ppps ∷ [] }
              ∷ record {
                stage = vm_ref_closure;
                packets = unpin_ppp_children r.pinned_ppp_children.value ∷ [];
              }
              ∷ [],
        )
  unfolding cleanup_ppps
  cleanup_ppps-moving r move unlocked = rw (move, unlocked)
