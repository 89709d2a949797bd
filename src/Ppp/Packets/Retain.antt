-- ===== src/Ppp/Packets/Retain.antt =====
-- mmtk/src/ppp.rs: `RemoveDeadPPPs` keeps the live PPPs, forwarded.
use mathlib.Core.Option.{get_or}
use mmtk_ruby.Base.{
  ◌+◌, ◌≡◌, refl, Bool, not, ◌&&◌, List, [], ◌∷◌, map, arith, length, keep, ok, free,
}
use mmtk_ruby.Vm.{ObjectReference, Core, RubyUpcalls}
use mmtk_ruby.Ppp.{PppRegistry, set_ppps}
use mmtk_ruby.Ppp.Packets.{retain, remove_do_work}

module _ {W : Type 0} (core : Core W) (up : RubyUpcalls W) (w : W) where
  -- Where the object is now.
  abbrev pub forwarded : ObjectReference → ObjectReference
  forwarded obj = get_or (core.get_forwarded_object w obj) obj

  abbrev pub stays : ObjectReference → Bool
  stays obj = core.is_live w obj && not (up.is_no_longer_ppp (forwarded obj) w)

  abbrev pub retired : ObjectReference → Bool
  retired obj = core.is_live w obj && up.is_no_longer_ppp (forwarded obj) w

  retain-keep :
      (objs : List ObjectReference) → (retain core up w objs).ppps ≡ map forwarded (keep stays objs)
  unfolding retain
  retain-keep [] = refl
  retain-keep (o ∷ os) = ground (arith, retain-keep os)

  retain-counts :
      (objs : List ObjectReference)
      → ((retain core up w objs).num_no_longer_ppps ≡ length (keep retired objs))
        × ((retain core up w objs).num_dead_ppps ≡ length (keep (λ o. not (core.is_live w o)) objs))
        × (length objs
            ≡ length (retain core up w objs).ppps
              + (retain core up w objs).num_no_longer_ppps
              + (retain core up w objs).num_dead_ppps)
  unfolding retain
  retain-counts [] = (refl, refl, refl)
  retain-counts (o ∷ os) = ground (arith, retain-counts os)

  -- With the lock free, `RemoveDeadPPPs` keeps exactly the PPPs that are live and whose forwarded
  -- object is still one, forwarded and in order; each of the others is counted once, as dead or as
  -- no longer a PPP, and the pinned children are left alone.
  pub remove_do_work-keeps :
      (r : PppRegistry)
      → r.ppps.status ≡ free
      → (remove_do_work core up r w
          ≡ ok (
            set_ppps r (map forwarded (keep stays r.ppps.value)),
            record {
              ppps = map forwarded (keep stays r.ppps.value);
              num_no_longer_ppps = length (keep retired r.ppps.value);
              num_dead_ppps = length (keep (λ o. not (core.is_live w o)) r.ppps.value);
            },
          ))
        × (length r.ppps.value
            ≡ length (map forwarded (keep stays r.ppps.value))
              + length (keep retired r.ppps.value)
              + length (keep (λ o. not (core.is_live w o)) r.ppps.value))
  unfolding remove_do_work
  remove_do_work-keeps r h = ground (arith, retain-keep r.ppps.value, retain-counts r.ppps.value)
