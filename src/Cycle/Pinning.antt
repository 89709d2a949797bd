-- ===== src/Cycle/Pinning.antt =====
-- mmtk/src/ppp.rs, collection.rs and scanning.rs: the PPPs in a whole collection, from the pinning of
-- their children to the unpinning, in the order of mmtk-core's stages.
use mathlib.Core.List.{append-nil}
use mmtk_ruby.Base.{
  ◌≡◌, refl, ◌∙◌, Bool, true, false, List, [], ◌∷◌, ◌++◌, map, keep, some, Outcome, ok, ◌>>=◌, free,
}
use mmtk_ruby.Build.{Build}
use mmtk_ruby.Vm.{ObjectReference, Core, RubyUpcalls, PinBits, SamePins, Keeps}
use mmtk_ruby.Packet.{Packet, remove_dead_ppps, unpin_ppp_children, Submission}
use mmtk_ruby.Abi.Tls.{GcThreadTls, IsIdle}
use mmtk_ruby.Ppp.{PppRegistry, set_ppps, set_pinned, pin_children, cleanup_ppps}
use mmtk_ruby.Ppp.Registry.{
  ppps_of, pin_children-partition, pin_children-non_moving, cleanup_ppps-non_moving,
}
use mmtk_ruby.Ppp.Packets.{PinLocals, remove_do_work, unpin_do_work}
use mmtk_ruby.Ppp.Packets.Cycle.{pin_packets, pin_packets-total, pin_cycle}
use mmtk_ruby.Ppp.Packets.Retain.{forwarded, stays, remove_do_work-keeps}

-- The PPPs of the packets of some submissions, and all the packets.
abbrev ppps_in : List Submission → List (List ObjectReference)
ppps_in [] = []
ppps_in (s ∷ ss) = ppps_of s.packets ++ ppps_in ss

abbrev packets_in : List Submission → List Packet
packets_in [] = []
packets_in (s ∷ ss) = s.packets ++ packets_in ss

-- A registry between two collections.
pub record IsReady (r : PppRegistry) : Type 0 where
  pub ppps_free : r.ppps.status ≡ free
  pub children_free : r.pinned_ppp_children.status ≡ free
  pub no_children : r.pinned_ppp_children.value ≡ []

module _ {W : Type 0} (build : Build) (core : Core W) (up : RubyUpcalls W) where
  -- The packets of `VMRefClosure` in turn, as far as the PPPs are concerned.
  run_closing : List Packet → PppRegistry → W → Outcome (PppRegistry × W)
  run_closing [] r w = ok (r, w)
  run_closing (remove_dead_ppps ∷ ps) r w =
      remove_do_work core up r w >>= λ removed. run_closing ps removed.0 w
  run_closing (unpin_ppp_children children ∷ ps) r w =
      unpin_do_work build core children w >>= λ w'. run_closing ps r w'
  run_closing (_ ∷ ps) r w = run_closing ps r w

  -- One collection, as far as the PPPs are concerned: the packets of `Prepare`, then `trace`, which
  -- is all that happens up to the end of the closure, and then the packets of `VMRefClosure`.
  pub collect :
      (trace : W → W) → GcThreadTls PinLocals W → PppRegistry → W → Outcome (PppRegistry × W)
  unfolding run_closing
  collect trace tls r w = do
    submitted ← pin_children build core (some tls) r w
    pinned ← pin_packets build core up (ppps_in submitted) tls r w
    let traced = trace pinned.2
    cleaned ← cleanup_ppps build core pinned.0 traced
    run_closing (packets_in cleaned.1) cleaned.0 traced

  -- The registry after a collection whose closure ends in the state `traced`.
  abbrev pub collected : PppRegistry → W → PppRegistry
  collected r traced =
      set_ppps (set_pinned r [])
        (map (forwarded core up traced) (keep (stays core up traced) r.ppps.value))

  -- A collection succeeds; the registry then has the PPPs that are live and still PPPs, forwarded and
  -- in order, and is ready; and every object is pinned exactly if it was.
  abbrev pub Restored : (W → W) → GcThreadTls PinLocals W → PppRegistry → W → Type 0
  Restored trace tls r w =
      (traced w' : W) × (r' : PppRegistry) × (collect trace tls r w ≡ ok (r', w'))
      × (r'.ppps.value ≡ map (forwarded core up traced) (keep (stays core up traced) r.ppps.value))
      × IsReady r'
      × SamePins core w w'

module _ {W : Type 0} (build : Build) (core : Core W) (up : RubyUpcalls W) (bits : PinBits core)
    (quiet : (obj : ObjectReference) (w : W)
      → Keeps (SamePins core w) (up.call_gc_mark_children obj w)) where
  module _ (trace : W → W) (tls : GcThreadTls PinLocals W) (r : PppRegistry) (w : W)
      (same : (x : W) → SamePins core x (trace x))
      (steady : (x : W)
        → core.current_gc_may_move_object (trace x) ≡ core.current_gc_may_move_object w)
      (idle : IsIdle tls) (ready : IsReady r) where
    abbrev Restores : Type 0
    Restores =
        (traced w' : W) × (collect build core up trace tls r w
          ≡ ok (collected build core up r traced, w'))
        × SamePins core w w'

    collect-moving : core.current_gc_may_move_object w ≡ true → Restores
    unfolding collect run_closing
    collect-moving move =
        let (packets, e, _, _, _) =
          pin_children-partition build core w tls r move idle ready.ppps_free in
        let (l, w₁, run) =
          pin_packets-total build core up bits quiet (ppps_of packets) tls r w idle
            ready.children_free ready.no_children in
        let (clean, w₂, unpin, pins) =
          pin_cycle build core up bits quiet (ppps_of packets) tls r w l w₁ (trace w₁) idle
            ready.children_free ready.no_children run (same w₁) (steady w₁ ∙ move) in
        (
          trace w₁,
          w₂,
          rw
              (
                e,
                append-nil (ppps_of packets),
                run,
                clean,
                (remove_do_work-keeps core up (trace w₁) (set_pinned r []) ready.ppps_free).0,
                unpin,
              )
              refl,
          pins,
        )

    collect-non_moving : core.current_gc_may_move_object w ≡ false → Restores
    unfolding collect run_closing
    collect-non_moving still = (
      trace w,
      trace w,
      rw
          (
            pin_children-non_moving build core w (some tls) r still,
            cleanup_ppps-non_moving build core (trace w) r (steady w ∙ still) ready.children_free
                ready.no_children,
            (remove_do_work-keeps core up (trace w) (set_pinned r []) ready.ppps_free).0,
          )
          refl,
      same w,
    )

    -- With the pin bits as documented and left alone by CRuby's marking and by `trace`, a GC that does
    -- not change its kind, an idle worker and no lock held or child pinned: a collection succeeds,
    -- moving or not. The registry then has the PPPs that are live and still PPPs, forwarded
    -- and in order, no child pinned and no lock held; and every object is pinned exactly if it was.
    pub collect-restores : Restored build core up trace tls r w
    collect-restores = by_kind (core.current_gc_may_move_object w) refl
      where
        packed : Restores → Restored build core up trace tls r w
        packed (traced, w', e, pins) = (
          traced,
          w',
          collected build core up r traced,
          e,
          refl,
          record {
            ppps_free = ready.ppps_free;
            children_free = ready.children_free;
            no_children = refl;
          },
          pins,
        )

        by_kind :
            (b : Bool)
            → core.current_gc_may_move_object w ≡ b
            → Restored build core up trace tls r w
        by_kind true move = packed (collect-moving move)
        by_kind false still = packed (collect-non_moving still)
