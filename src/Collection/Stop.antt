-- ===== src/Collection/Stop.antt =====
-- mmtk/src/collection.rs: `stop_all_mutators`, which pins the children of PPPs and visits the
-- mutators.
mod Tests
use mmtk_ruby.Base.{
  ◌≡◌, refl, true, List, [], ◌∷◌, ◌++◌, map, concat, IsChunked, Option, some, Outcome, ok, ◌>>=◌,
  free,
}
use mmtk_ruby.Build.{Build}
use mmtk_ruby.Stage.{prepare}
use mmtk_ruby.Vm.{Address, Core, RubyUpcalls}
use mmtk_ruby.Packet.{Packet, pin_ppp_children}
use mmtk_ruby.Abi.Tls.{GcThreadTls, IsIdle}
use mmtk_ruby.Ppp.Registry.{ppps_of, pin_children-partition}
use mmtk_ruby.Binding.{RubyBinding}
use mmtk_ruby.Globals.{Globals, binding-some}
use mmtk_ruby.Collection.{visit_mutators, stop_all_mutators}

-- The visitor on each mutator in turn.
abbrev pub visited : {W : Type 0} → (Address → W → W) → List Address → W → W
visited visitor [] w = w
visited visitor (m ∷ ms) w = visited visitor ms (visitor m w)

visit_mutators-visited :
    {W : Type 0} (visitor : Address → W → W) (ms : List Address) (w : W)
    → visit_mutators visitor ms w ≡ visited visitor ms w
unfolding visit_mutators
visit_mutators-visited visitor [] w = refl
visit_mutators-visited visitor (m ∷ ms) w = visit_mutators-visited visitor ms (visitor m w)

module _ {S W : Type 0} (build : Build) (core : Core W) (up : RubyUpcalls W) where
  -- In a moving GC, on an idle worker, with the binding set and the lock of the PPPs free: once the
  -- world has stopped, the `Prepare` bucket gets one batch of `PinPPPChildren` packets, which hold
  -- every registered PPP once, in order, 512 to a packet, the last one shorter but not empty; and
  -- then the visitor is shown each mutator that CRuby reports, once and in order.
  pub stop_all_mutators-pins :
      (tls : Address) (gc_tls : GcThreadTls S W) (visitor : Address → W → W) (g : Globals)
      (b : RubyBinding) (w : W)
      → let stopped = up.stop_the_world tls w in
        g.binding_cell ≡ some b
        → core.current_gc_may_move_object stopped ≡ true
        → IsIdle gc_tls
        → b.ppp_registry.ppps.status ≡ free
        → (packets : List Packet) × (stop_all_mutators build core up tls (some gc_tls) visitor g w
            ≡ ok (
              record { stage = prepare; packets = packets } ∷ [],
              visited visitor (up.get_mutators stopped) stopped,
            ))
          × (packets ≡ map pin_ppp_children (ppps_of packets))
          × (concat (ppps_of packets) ≡ b.ppp_registry.ppps.value)
          × IsChunked 512 (ppps_of packets)
  unfolding stop_all_mutators
  stop_all_mutators-pins tls gc_tls visitor g b w bound move idle unlocked =
      let stopped = up.stop_the_world tls w in
      let (packets, e, shape, all, sizes) =
        pin_children-partition build core stopped gc_tls b.ppp_registry move idle unlocked in
      (
        packets,
        rw
            (
              binding-some g b bound,
              e,
              visit_mutators-visited visitor (up.get_mutators stopped) stopped,
            )
            refl,
        shape,
        all,
        sizes,
      )
