-- ===== src/Ppp/Packets.antt =====
-- mmtk/src/ppp.rs: the work packets `PinPPPChildren`, `RemoveDeadPPPs` and `UnpinPPPChildren`.
pub mod Tests
mod Marking
mod Pins
pub mod Cycle
pub mod Retain
use mmtk_ruby.Base.{
  ℕ, suc, ◌≡◌, Bool, true, false, not, ◌&&◌, List, [], ◌∷◌, ◌++◌, if◌then◌else◌, Option, none, some,
  Outcome, ok, ◌>>=◌, ◌>>◌, assertion, lock, try_lock,
}
use mathlib.Core.Option.{get_or}
use mmtk_ruby.Build.{Build, debug_assert}
use mmtk_ruby.Vm.{ObjectReference, Core, RubyUpcalls}
use mmtk_ruby.Abi.Closure.{VisitObject, ObjectClosure, upcall}
use mmtk_ruby.Abi.Tls.{GcThreadTls, from_vwt_check, with_object_closure}
use mmtk_ruby.Ppp.{PppRegistry, set_ppps, set_pinned}

-- The locals of `PinPPPChildren::do_work` that its closures share.
pub record PinLocals : Type 0 where
  pub ppp_children : List ObjectReference
  pub num_no_longer_ppps : ℕ

-- The closure that is set: it notes the objects to be pinned, and moves nothing.
abbrev pub visit_child : {W : Type 0} → VisitObject PinLocals W
visit_child s w target_object pin = ok (
  target_object,
  (if pin then record s { ppp_children = s.ppp_children ++ target_object ∷ [] } else s),
  w,
)

module _ {W : Type 0} (up : RubyUpcalls W) where
  -- One round of the loop over the PPPs.
  mark_ppp :
      ObjectReference
      → ObjectClosure PinLocals W
      → PinLocals
      → W
      → Outcome (Unit {0} × ObjectClosure PinLocals W × PinLocals × W)
  mark_ppp obj closure s w =
      if up.is_no_longer_ppp obj w
      then ok (tt, closure, record s { num_no_longer_ppps = suc s.num_no_longer_ppps }, w)
      else upcall (up.call_gc_mark_children obj) closure s w

  pub mark_ppps :
      List ObjectReference
      → ObjectClosure PinLocals W
      → PinLocals
      → W
      → Outcome (Unit {0} × ObjectClosure PinLocals W × PinLocals × W)
  mark_ppps [] closure s w = ok (tt, closure, s, w)
  mark_ppps (obj ∷ objs) closure s w = mark_ppp obj closure s w >>= λ r. mark_ppps objs r.1 r.2 r.3

module _ {W : Type 0} (core : Core W) where
  -- `for target_object in ppp_children`: the objects whose pin bit this call has set.
  pub pin_loop : List ObjectReference → List ObjectReference → W → List ObjectReference × W
  pin_loop [] newly w = (newly, w)
  pin_loop (o ∷ os) newly w =
      let (pinned, w') = core.pin_object o w in
      pin_loop os (if pinned then newly ++ o ∷ [] else newly) w'

abbrev pub no_locals : PinLocals
no_locals = record { ppp_children = []; num_no_longer_ppps = 0 }

-- `PinPPPChildren::do_work`
pub pin_do_work :
    {W : Type 0}
    → Build
    → Core W
    → RubyUpcalls W
    → List ObjectReference
    → Option (GcThreadTls PinLocals W)
    → PppRegistry
    → W
    → Outcome (PppRegistry × GcThreadTls PinLocals W × W)
unfolding mark_ppps mark_ppp pin_loop
pin_do_work build core up ppps vwt r w = do
  gc_tls ← from_vwt_check build vwt
  m ← with_object_closure build visit_child (mark_ppps up ppps) gc_tls no_locals w
  let p = pin_loop core m.2.ppp_children [] m.3
  pinned ← lock r.pinned_ppp_children
  ok (set_pinned r (pinned ++ p.0), m.1, p.1)

-- The closure of `retain_mut`, with its counters.
pub record Retained : Type 0 where
  pub ppps : List ObjectReference
  pub num_no_longer_ppps : ℕ
  pub num_dead_ppps : ℕ

module _ {W : Type 0} (core : Core W) (up : RubyUpcalls W) where
  retain : W → List ObjectReference → Retained
  retain w [] = record { ppps = []; num_no_longer_ppps = 0; num_dead_ppps = 0 }
  retain w (obj ∷ objs) =
      let rest = retain w objs in
      let new_obj = get_or (core.get_forwarded_object w obj) obj in
      if core.is_live w obj
      then (if up.is_no_longer_ppp new_obj w
          then record rest { num_no_longer_ppps = suc rest.num_no_longer_ppps }
          else record rest { ppps = new_obj ∷ rest.ppps })
      else record rest { num_dead_ppps = suc rest.num_dead_ppps }

  -- `RemoveDeadPPPs::do_work`, with the counters that it reports.
  pub remove_do_work : PppRegistry → W → Outcome (PppRegistry × Retained)
  unfolding retain
  remove_do_work r w = do
    ppps ← try_lock r.ppps
    let kept = retain w ppps
    ok (set_ppps r kept.ppps, kept)

-- `UnpinPPPChildren::do_work`
pub unpin_do_work : {W : Type 0} → Build → Core W → List ObjectReference → W → Outcome W
unpin_do_work build core [] w = ok w
unpin_do_work build core (obj ∷ children) w =
    let (unpinned, w') = core.unpin_object obj w in
    debug_assert build unpinned assertion >> unpin_do_work build core children w'
