-- ===== src/Ppp/Packets/Marking.antt =====
-- mmtk/src/ppp.rs: what `PinPPPChildren` sees of CRuby's marking functions.
use mmtk_ruby.Base.{
  ℕ, suc, ◌≡◌, ◌∙◌, true, false, List, [], ◌∷◌, ◌++◌, if◌then◌else◌, Bool-cases, inl, inr, ok,
}
use mathlib.Core.List.{append_assoc, append-nil}
use mmtk_ruby.Vm.{ObjectReference, RubyUpcalls, Script, finish, visit}
use mmtk_ruby.Abi.Closure.{ObjectClosure}
use mmtk_ruby.Abi.Closure.Laws.{run_visits, registered, run_script-registered}
use mmtk_ruby.Ppp.Packets.{PinLocals, visit_child, mark_ppp, mark_ppps}

-- The objects that a marking function visits with `pin` set, if every visit hands the reference
-- back as it is and leaves the state alone; and the state at its end.
abbrev pub pinned_visits : {W : Type 0} → Script W → List ObjectReference × W
pinned_visits (finish w) = ([], w)
pinned_visits (visit w object pin rest) =
    let (os, w') = pinned_visits (rest w object) in (if pin then object ∷ os else os, w')

-- The same for a list of PPPs, those skipped that are no longer PPPs.
abbrev pub children_of :
    {W : Type 0} → RubyUpcalls W → List ObjectReference → W → List ObjectReference × W
children_of up [] w = ([], w)
children_of up (obj ∷ objs) w =
    let (os, w') =
      if up.is_no_longer_ppp obj w
      then ([], w)
      else pinned_visits (up.call_gc_mark_children obj w) in
    let (os', w'') = children_of up objs w' in (os ++ os', w'')

module _ {W : Type 0} (up : RubyUpcalls W) where
  run_visits-pinned_visits :
      (code : Script W) (s : PinLocals)
      → run_visits visit_child code s
        ≡ ok (
          record s { ppp_children = s.ppp_children ++ (pinned_visits code).0 },
          (pinned_visits code).1,
        )
  unfolding run_visits
  run_visits-pinned_visits (finish w) s = rw append-nil
  run_visits-pinned_visits (visit w object true rest) s =
      run_visits-pinned_visits (rest w object)
        (record s { ppp_children = s.ppp_children ++ object ∷ [] })
      ∙ rw (append_assoc s.ppp_children (object ∷ []) (pinned_visits (rest w object)).0)
  run_visits-pinned_visits (visit w object false rest) s =
      run_visits-pinned_visits (rest w object) s

  abbrev closure : ObjectClosure PinLocals W
  closure = registered visit_child

  mark_ppp-visits :
      (obj : ObjectReference) (s : PinLocals) (w : W)
      → let r =
          if up.is_no_longer_ppp obj w
          then ([], w)
          else pinned_visits (up.call_gc_mark_children obj w) in
        (n : ℕ) × (mark_ppp up obj closure s w
          ≡ ok (
            tt,
            closure,
            record { ppp_children = s.ppp_children ++ r.0; num_no_longer_ppps = n },
            r.1,
          ))
  unfolding mark_ppp
  mark_ppp-visits obj s w = elim (Bool-cases (up.is_no_longer_ppp obj w)) [
    | inl gone ↦ (suc s.num_no_longer_ppps, rw (gone, append-nil))
    | inr still ↦ (
      s.num_no_longer_ppps,
      rw (
        still,
        run_script-registered visit_child (up.call_gc_mark_children obj w) s,
        run_visits-pinned_visits (up.call_gc_mark_children obj w) s,
      ),
    )
  ]

  -- The marking never panics, and notes the objects to be pinned in the order of the visits.
  pub mark_ppps-children_of :
      (objs : List ObjectReference) (s : PinLocals) (w : W)
      → (n : ℕ) × (mark_ppps up objs closure s w
          ≡ ok (
            tt,
            closure,
            record {
              ppp_children = s.ppp_children ++ (children_of up objs w).0;
              num_no_longer_ppps = n;
            },
            (children_of up objs w).1,
          ))
  unfolding mark_ppps
  mark_ppps-children_of [] s w = (s.num_no_longer_ppps, rw append-nil)
  mark_ppps-children_of (obj ∷ objs) s w =
      let (n, e) = mark_ppp-visits obj s w in
      let r : List ObjectReference × W =
        if up.is_no_longer_ppp obj w
        then ([], w)
        else pinned_visits (up.call_gc_mark_children obj w) in
      let (m, e') =
        mark_ppps-children_of objs
          (record { ppp_children = s.ppp_children ++ r.0; num_no_longer_ppps = n }) r.1 in
      (m, rw e (e' ∙ rw (append_assoc s.ppp_children r.0 (children_of up objs r.1).0)))
