-- ===== src/Ppp.antt =====
-- mmtk/src/ppp.rs: potential pinning parents (PPPs), whose children are pinned during a moving GC.
pub mod Packets
pub mod Registry
use mmtk_ruby.Base.{
  ℕ, ◌≡◌, Bool, true, false, List, [], ◌∷◌, ◌++◌, map, chunks, length, ◌==◌, if◌then◌else◌, Option,
  Outcome, ok, ◌>>=◌, ◌>>◌, assertion, assert, Mutex, unlocked, lock, try_lock,
}
use mmtk_ruby.Build.{Build, debug_assert}
use mmtk_ruby.Stage.{prepare, vm_ref_closure}
use mmtk_ruby.Vm.{ObjectReference, Core}
use mmtk_ruby.Packet.{Packet, pin_ppp_children, remove_dead_ppps, unpin_ppp_children, Submission}
use mmtk_ruby.Abi.Tls.{GcThreadTls, from_vwt_check, worker}

pub record PppRegistry : Type 0 where
  pub ppps : Mutex (List ObjectReference)
  pub pinned_ppp_children : Mutex (List ObjectReference)

unfoldable pub new : PppRegistry
new = record { ppps = unlocked []; pinned_ppp_children = unlocked [] }

abbrev pub set_ppps : PppRegistry → List ObjectReference → PppRegistry
set_ppps r objects = record r { ppps = record { status = r.ppps.status; value = objects } }

abbrev pub set_pinned : PppRegistry → List ObjectReference → PppRegistry
set_pinned r objects = record r {
  pinned_ppp_children = record { status = r.pinned_ppp_children.status; value = objects };
}

pub register : PppRegistry → ObjectReference → Outcome PppRegistry
register r object = do ppps ← lock r.ppps; ok (set_ppps r (ppps ++ object ∷ []))

push_all : List ObjectReference → List ObjectReference → List ObjectReference
push_all ppps [] = ppps
push_all ppps (object ∷ objects) = push_all (ppps ++ object ∷ []) objects

pub register_many : PppRegistry → List ObjectReference → Outcome PppRegistry
unfolding push_all
register_many r objects = do ppps ← lock r.ppps; ok (set_ppps r (push_all ppps objects))

abbrev pub packet_size : ℕ
packet_size = 512

-- `PPPRegistry::pin_ppp_children`: what it adds to the `Prepare` bucket.
pub pin_children :
    {S W : Type 0}
    → Build
    → Core W
    → Option (GcThreadTls S W)
    → PppRegistry
    → W
    → Outcome (List Submission)
pin_children build core tls r w =
    if core.current_gc_may_move_object w
    then (do
      gc_tls ← from_vwt_check build tls
      scheduler ← worker gc_tls
      ppps ← try_lock r.ppps
      ok (
          record { stage = prepare; packets = map pin_ppp_children (chunks packet_size ppps) }
          ∷ []))
    else ok []

-- `PPPRegistry::cleanup_ppps`: the registry, and what it adds to the `VMRefClosure` bucket.
pub cleanup_ppps :
    {W : Type 0} → Build → Core W → PppRegistry → W → Outcome (PppRegistry × List Submission)
cleanup_ppps build core r w =
    let remove : Submission = record { stage = vm_ref_closure; packets = remove_dead_ppps ∷ [] } in
    if core.current_gc_may_move_object w
    then (do
      children ← try_lock r.pinned_ppp_children
      ok (
        set_pinned r [],
        remove ∷ record { stage = vm_ref_closure; packets = unpin_ppp_children children ∷ [] } ∷ [],
      ))
    else if build.debug_assertions
    then (do
      children ← try_lock r.pinned_ppp_children
      assert (length children == 0) assertion
      ok (r, remove ∷ []))
    else ok (r, remove ∷ [])
