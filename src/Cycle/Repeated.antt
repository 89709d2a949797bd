-- ===== src/Cycle/Repeated.antt =====
-- mmtk/src/ppp.rs: many collections one after another, with mutators that register PPPs in between.
use mmtk_ruby.Base.{◌≡◌, refl, sym, ◌∙◌, Bool, List, [], ◌∷◌, ◌++◌, All, Outcome, ok, ◌>>=◌}
use mmtk_ruby.Build.{Build}
use mmtk_ruby.Vm.{ObjectReference, Core, RubyUpcalls, PinBits, SamePins, Keeps}
use mmtk_ruby.Abi.Tls.{GcThreadTls, IsIdle}
use mmtk_ruby.Ppp.{PppRegistry, set_ppps, register_many}
use mmtk_ruby.Ppp.Registry.{register_many-register_each}
use mmtk_ruby.Ppp.Packets.{PinLocals}
use mmtk_ruby.Cycle.Pinning.{IsReady, collect, collect-restores}

-- One collection and what precedes it: the mutators register `new_ppps`; `start` is all that happens
-- until the world has stopped, and `trace` all that happens up to the end of the closure.
pub record Gc (W : Type 0) : Type 0 where
  pub new_ppps : List ObjectReference
  pub start : W → W
  pub trace : W → W
  pub moving : Bool

-- It is a moving GC, or not, from the stop on, and its closure leaves the pin bits alone.
pub record IsSteady {W : Type 0} (core : Core W) (gc : Gc W) : Type 0 where
  pub starts : (w : W) → core.current_gc_may_move_object (gc.start w) ≡ gc.moving
  pub traces : (w : W) → core.current_gc_may_move_object (gc.trace w) ≡ gc.moving
  pub pins : (w : W) → SamePins core w (gc.trace w)

module _ {W : Type 0} (build : Build) (core : Core W) (up : RubyUpcalls W) where
  unfoldable pub collect_all :
      List (Gc W) → GcThreadTls PinLocals W → PppRegistry → W → Outcome (PppRegistry × W)
  collect_all [] tls r w = ok (r, w)
  collect_all (gc ∷ gcs) tls r w = do
    registered ← register_many r gc.new_ppps
    c ← collect build core up gc.trace tls registered (gc.start w)
    collect_all gcs tls c.0 c.1

module _ {W : Type 0} (build : Build) (core : Core W) (up : RubyUpcalls W) (bits : PinBits core)
    (quiet : (obj : ObjectReference) (w : W)
      → Keeps (SamePins core w) (up.call_gc_mark_children obj w)) where
  -- With the pin bits as documented and left alone by CRuby's marking, steady collections, an idle
  -- worker and a registry that is ready: any number of collections, moving or not, all
  -- succeed, whatever PPPs are registered in between, and the registry is ready again, that is, no
  -- lock is held and no child is left to unpin.
  pub collect_all-IsReady :
      (gcs : List (Gc W)) (tls : GcThreadTls PinLocals W) (r : PppRegistry) (w : W)
      → All (IsSteady core) gcs
      → IsIdle tls
      → IsReady r
      → (r' : PppRegistry) × (w' : W) × (collect_all build core up gcs tls r w ≡ ok (r', w'))
        × IsReady r'
  unfolding collect_all
  collect_all-IsReady [] tls r w steady idle ready = (r, w, refl, ready)
  collect_all-IsReady (gc ∷ gcs) tls r w (s, ss) idle ready =
      let r₁ = set_ppps r (r.ppps.value ++ gc.new_ppps) in
      let ready₁ : IsReady r₁ = record {
        ppps_free = ready.ppps_free;
        children_free = ready.children_free;
        no_children = ready.no_children;
      } in
      let (_, w₂, r₂, run, _, ready₂, _) =
        collect-restores build core up bits quiet gc.trace tls r₁ (gc.start w) s.pins
          (λ x. s.traces x ∙ sym (s.starts w)) idle ready₁ in
      let (r₃, w₃, rest, ready₃) = collect_all-IsReady gcs tls r₂ w₂ ss idle ready₂ in
      (r₃, w₃, rw ((register_many-register_each r gc.new_ppps ready.ppps_free).1, run) rest, ready₃)
