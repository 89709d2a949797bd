-- ===== src/Scanning/Roots/Laws.antt =====
-- mmtk/src/scanning.rs: the roots that CRuby reports reach the collector, in batches.
use mathlib.Core.List.{append_assoc, append-nil}
use mmtk_ruby.Base.{
  ◌<◌, ◌≡◌, refl, sym, ap, ◌∙◌, Bool, true, false, List, [], ◌∷◌, ◌++◌, length, leb, arith, chunks,
  concat, IsChunked, chunks-nil, chunks_full, chunks_short, concat-chunks, chunks-IsChunked,
  length-append, Bool-cases, inl, inr, some, Outcome, ok,
}
use mmtk_ruby.Build.{Build}
use mmtk_ruby.Vm.{Address, ObjectReference, Core, RubyUpcalls, Script, finish, visit, visits}
use mmtk_ruby.Abi.Closure.{ObjectClosure, upcall}
use mmtk_ruby.Abi.Closure.Laws.{registered, run_visits, run_script-registered}
use mmtk_ruby.Abi.Tls.{GcThreadTls, IsIdle, from_vwt_check-IsIdle, with_object_closure-ok}
use mmtk_ruby.Packet.{
  RootScanner, scan_vm_roots, scan_end_proc_roots, scan_global_tbl_roots, scan_yjit_roots,
  scan_global_symbols_roots, scan_finalizer_tbl_roots, scan_obj_to_id_tbl_roots, scan_misc_roots,
  scan_final_jobs_roots,
}
use mmtk_ruby.Scanning.{is_mmtk_object_safe}
use mmtk_ruby.Scanning.Roots.{
  RootLocals, no_roots, push_root, flush_roots, visit_root, collect_object_roots_in, scan_roots,
  root_scanner_do_work, scan_roots_in_mutator_thread,
}

-- A list of roots pushed one after another.
abbrev pub push_roots : RootLocals → List ObjectReference → RootLocals
push_roots s [] = s
push_roots s (o ∷ os) = push_roots (push_root s o) os

-- What the closure has passed on once the buffer is emptied.
abbrev drained : RootLocals → List (List ObjectReference)
drained s = flush_roots s.buffer s.works

push_root_full :
    (buffer : List ObjectReference) (works : List (List ObjectReference)) (o : ObjectReference)
    → leb 4096 (length (buffer ++ o ∷ [])) ≡ true
    → push_root (record { buffer = buffer; works = works }) o
      ≡ record { buffer = []; works = works ++ (buffer ++ o ∷ []) ∷ [] }
unfolding push_root
push_root_full buffer works o h = rw h

push_root_room :
    (buffer : List ObjectReference) (works : List (List ObjectReference)) (o : ObjectReference)
    → leb 4096 (length (buffer ++ o ∷ [])) ≡ false
    → push_root (record { buffer = buffer; works = works }) o
      ≡ record { buffer = buffer ++ o ∷ []; works = works }
unfolding push_root
push_root_room buffer works o h = rw h

flush_roots-chunks :
    (buffer : List ObjectReference) (works : List (List ObjectReference))
    → length buffer < 4096
    → flush_roots buffer works ≡ works ++ chunks 4096 buffer
unfolding flush_roots
flush_roots-chunks [] works h = rw chunks-nil (sym (append-nil works))
flush_roots-chunks (o ∷ os) works h = rw (chunks_short 4096 o os (omega arith))

push_roots-chunks :
    (os buffer : List ObjectReference) (works : List (List ObjectReference))
    → length buffer < 4096
    → drained (push_roots (record { buffer = buffer; works = works }) os)
      ≡ works ++ chunks 4096 (buffer ++ os)
push_roots-chunks [] buffer works h = rw append-nil (flush_roots-chunks buffer works h)
push_roots-chunks (o ∷ os) buffer works h =
    elim (Bool-cases (leb 4096 (length (buffer ++ o ∷ [])))) [
      | inl full ↦
          ap (λ s. drained (push_roots s os)) (push_root_full buffer works o full)
          ∙ (push_roots-chunks os [] (works ++ (buffer ++ o ∷ []) ∷ []) (omega arith)
              ∙ append_assoc works ((buffer ++ o ∷ []) ∷ []) (chunks 4096 os)
              ∙ ap (λ r. works ++ r)
                  (sym (
                    chunks_full 4096 (buffer ++ o ∷ []) os (omega arith)
                      (ground (arith, length-append buffer (o ∷ [])))))
              ∙ ap (λ r. works ++ chunks 4096 r) (append_assoc buffer (o ∷ []) os))
      | inr room ↦
          ap (λ s. drained (push_roots s os)) (push_root_room buffer works o room)
          ∙ (push_roots-chunks os (buffer ++ o ∷ []) works (ground arith)
              ∙ ap (λ r. works ++ chunks 4096 r) (append_assoc buffer (o ∷ []) os))
    ]

pub push_roots-append :
    (s : RootLocals) (xs ys : List ObjectReference)
    → push_roots s (xs ++ ys) ≡ push_roots (push_roots s xs) ys
push_roots-append s [] ys = refl
push_roots-append s (x ∷ xs) ys = push_roots-append (push_root s x) xs ys

-- The set of roots in CRuby that each packet is for, by its name.
abbrev pub root_set : {W : Type 0} → RubyUpcalls W → RootScanner → W → Script W
root_set up scan_vm_roots = up.scan_vm_roots
root_set up scan_end_proc_roots = up.scan_end_proc_roots
root_set up scan_global_tbl_roots = up.scan_global_tbl_roots
root_set up scan_yjit_roots = up.scan_yjit_roots
root_set up scan_global_symbols_roots = up.scan_global_symbols_roots
root_set up scan_finalizer_tbl_roots = up.scan_finalizer_tbl_roots
root_set up scan_obj_to_id_tbl_roots = up.scan_obj_to_id_tbl_roots
root_set up scan_misc_roots = up.scan_misc_roots
root_set up scan_final_jobs_roots = up.scan_final_jobs_roots

module _ {W : Type 0} (build : Build) (core : Core W) where
  -- Every object that the code visits, if each visit changes nothing, is an MMTk object then.
  abbrev pub VisitsObjects : Script W → Type 0
  VisitsObjects (finish w) = Unit
  VisitsObjects (visit w object pin rest) =
      (is_mmtk_object_safe core w object ≡ true) × VisitsObjects (rest w object)

  visit_root-ok :
      (s : RootLocals) (w : W) (object : ObjectReference) (pin : Bool)
      → is_mmtk_object_safe core w object ≡ true
      → visit_root build core s w object pin ≡ ok (object, push_root s object, w)
  unfolding visit_root
  visit_root-ok s w object pin h = ground (arith, h)

  -- What one piece of CRuby code leaves in the closure.
  pub run_visits-push_roots :
      (code : Script W) (s : RootLocals)
      → VisitsObjects code
      → run_visits (visit_root build core) code s
        ≡ ok (push_roots s (visits code).0, (visits code).1)
  unfolding run_visits
  run_visits-push_roots (finish w) s h = refl
  run_visits-push_roots (visit w object pin rest) s h =
      rw (visit_root-ok s w object pin h.0)
        (run_visits-push_roots (rest w object) (push_root s object) h.1)

  -- A callback that pushes `os` and ends in `w'`.
  pub collect_object_roots_in-chunks :
      (callback : ObjectClosure RootLocals W
        → RootLocals
        → W
        → Outcome (Unit {0} × ObjectClosure RootLocals W × RootLocals × W))
      (tls : GcThreadTls RootLocals W) (w w' : W) (os : List ObjectReference)
      → IsIdle tls
      → callback (registered (visit_root build core)) no_roots w
        ≡ ok (tt, registered (visit_root build core), push_roots no_roots os, w')
      → collect_object_roots_in build core callback tls w ≡ ok (chunks 4096 os, tls, w')
  unfolding collect_object_roots_in
  collect_object_roots_in-chunks callback tls w w' os idle e =
      rw (with_object_closure-ok build (visit_root build core) callback tls no_roots w idle e)
        (ap (λ works. ok (works, tls, w')) (push_roots-chunks os [] [] (omega arith)))

  upcall-chunks :
      (code : W → Script W) (tls : GcThreadTls RootLocals W) (w : W)
      → IsIdle tls
      → VisitsObjects (code w)
      → collect_object_roots_in build core (upcall code) tls w
        ≡ ok (chunks 4096 (visits (code w)).0, tls, (visits (code w)).1)
  upcall-chunks code tls w idle h =
      collect_object_roots_in-chunks (upcall code) tls w (visits (code w)).1 (visits (code w)).0
        idle
        (rw (
          run_script-registered (visit_root build core) (code w) no_roots,
          run_visits-push_roots (code w) no_roots h,
        ))

  scan_roots-root_set :
      (up : RubyUpcalls W) (scanner : RootScanner)
      → scan_roots build core up scanner ≡ root_set up scanner
  unfolding scan_roots
  scan_roots-root_set up scan_vm_roots = refl
  scan_roots-root_set up scan_end_proc_roots = refl
  scan_roots-root_set up scan_global_tbl_roots = refl
  scan_roots-root_set up scan_yjit_roots = refl
  scan_roots-root_set up scan_global_symbols_roots = refl
  scan_roots-root_set up scan_finalizer_tbl_roots = refl
  scan_roots-root_set up scan_obj_to_id_tbl_roots = refl
  scan_roots-root_set up scan_misc_roots = refl
  scan_roots-root_set up scan_final_jobs_roots = refl

  -- On an idle worker, and if CRuby reports MMTk objects only: each packet that scans global roots
  -- passes on exactly the objects that CRuby visits for the set of roots after which the packet is
  -- named, in order, in batches of 4096 of which only the last may be shorter, and none is empty; the
  -- worker is idle again.
  pub root_scanner_do_work-chunks :
      (up : RubyUpcalls W) (scanner : RootScanner) (tls : GcThreadTls RootLocals W) (w : W)
      → IsIdle tls
      → VisitsObjects (root_set up scanner w)
      → (works : List (List ObjectReference)) × (root_scanner_do_work build core up scanner
            (some tls)
            w
          ≡ ok (works, tls, (visits (root_set up scanner w)).1))
        × (concat works ≡ (visits (root_set up scanner w)).0)
        × IsChunked 4096 works
  unfolding root_scanner_do_work
  root_scanner_do_work-chunks up scanner tls w idle h =
      let code = root_set up scanner in
      (
        chunks 4096 (visits (code w)).0,
        rw (from_vwt_check-IsIdle build tls idle, scan_roots-root_set up scanner)
            (upcall-chunks code tls w idle h),
        concat-chunks 4096 (visits (code w)).0 (omega arith),
        chunks-IsChunked 4096 (visits (code w)).0 (omega arith),
      )

  -- The same for the roots of one mutator thread.
  pub scan_roots_in_mutator_thread-chunks :
      (up : RubyUpcalls W) (mutator_tls tls_addr : Address) (tls : GcThreadTls RootLocals W) (w : W)
      → IsIdle tls
      → VisitsObjects (up.scan_roots_in_mutator_thread mutator_tls tls_addr w)
      → (works : List (List ObjectReference)) × (scan_roots_in_mutator_thread build core up
            mutator_tls tls_addr
            (some tls)
            w
          ≡ ok (works, tls, (visits (up.scan_roots_in_mutator_thread mutator_tls tls_addr w)).1))
        × (concat works ≡ (visits (up.scan_roots_in_mutator_thread mutator_tls tls_addr w)).0)
        × IsChunked 4096 works
  unfolding scan_roots_in_mutator_thread
  scan_roots_in_mutator_thread-chunks up mutator_tls tls_addr tls w idle h =
      let code = up.scan_roots_in_mutator_thread mutator_tls tls_addr in
      (
        chunks 4096 (visits (code w)).0,
        rw (from_vwt_check-IsIdle build tls idle) (upcall-chunks code tls w idle h),
        concat-chunks 4096 (visits (code w)).0 (omega arith),
        chunks-IsChunked 4096 (visits (code w)).0 (omega arith),
      )
