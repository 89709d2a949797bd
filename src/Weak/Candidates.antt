-- ===== src/Weak/Candidates.antt =====
-- mmtk/src/weak_proc.rs: the list of candidates for `obj_free` under calls from many threads. The
-- mutex makes each call atomic, so what the threads do together is one sequence of calls.
mod Tests
use mathlib.Core.List.{append-nil, append_assoc}
use mmtk_ruby.Base.{◌≡◌, refl, sym, ap, ◌∙◌, List, [], ◌∷◌, ◌++◌, Outcome, ok, ◌>>=◌, free}
use mmtk_ruby.Vm.{ObjectReference}
use mmtk_ruby.Weak.{
  WeakProcessor, set_candidates, add_obj_free_candidate, push_each, add_obj_free_candidates,
  get_all_obj_free_candidates,
}

pub data Call : Type 0 where
  add : ObjectReference → Call
  add_many : List ObjectReference → Call
  get_all : Call

-- One call: the processor, and the objects handed back.
perform : WeakProcessor → Call → Outcome (WeakProcessor × List ObjectReference)
perform p (add object) = add_obj_free_candidate p object >>= λ p'. ok (p', [])
perform p (add_many objects) = add_obj_free_candidates p objects >>= λ p'. ok (p', [])
perform p get_all = get_all_obj_free_candidates p

-- The calls in turn, with all that was handed back, in order.
pub perform_all : WeakProcessor → List Call → Outcome (WeakProcessor × List ObjectReference)
unfolding perform
perform_all p [] = ok (p, [])
perform_all p (c ∷ cs) = perform p c >>= λ r. perform_all r.0 cs >>= λ q. ok (q.0, r.1 ++ q.1)

-- What the calls add, in order.
abbrev pub added : List Call → List ObjectReference
added [] = []
added (add object ∷ cs) = object ∷ added cs
added (add_many objects ∷ cs) = objects ++ added cs
added (get_all ∷ cs) = added cs

push_each-append : (xs ys : List ObjectReference) → push_each xs ys ≡ xs ++ ys
unfolding push_each
push_each-append xs [] = sym (append-nil xs)
push_each-append xs (y ∷ ys) = push_each-append (xs ++ y ∷ []) ys ∙ append_assoc xs (y ∷ []) ys

-- A call on the list that the mutex protects.
abbrev on_list : List ObjectReference → Call → List ObjectReference × List ObjectReference
on_list l (add object) = (l ++ object ∷ [], [])
on_list l (add_many objects) = (l ++ objects, [])
on_list l get_all = ([], l)

perform-on_list :
    (p : WeakProcessor) (c : Call)
    → p.obj_free_candidates.status ≡ free
    → perform p c
      ≡ ok (
        set_candidates p (on_list p.obj_free_candidates.value c).0,
        (on_list p.obj_free_candidates.value c).1,
      )
unfolding perform add_obj_free_candidate add_obj_free_candidates get_all_obj_free_candidates
perform-on_list p (add object) h = rw h
perform-on_list p (add_many objects) h =
    rw (h, push_each-append p.obj_free_candidates.value objects)
perform-on_list p get_all h = rw h

on_list-added :
    (l : List ObjectReference) (c : Call) (cs : List Call) (t rest : List ObjectReference)
    → t ++ rest ≡ (on_list l c).0 ++ added cs
    → ((on_list l c).1 ++ t) ++ rest ≡ l ++ added (c ∷ cs)
on_list-added l (add object) cs t rest q = q ∙ append_assoc l (object ∷ []) (added cs)
on_list-added l (add_many objects) cs t rest q = q ∙ append_assoc l objects (added cs)
on_list-added l get_all cs t rest q = append_assoc l t rest ∙ ap (λ r. l ++ r) q

-- While no thread has panicked with the lock, every sequence of calls succeeds; what was handed
-- back, followed by what is still on the list, is what was on the list at the start, followed by
-- what was added, in order: no candidate is lost, handed back twice or overtaken.
pub perform_all-fifo :
    (cs : List Call) (p : WeakProcessor)
    → p.obj_free_candidates.status ≡ free
    → (l taken : List ObjectReference) × (perform_all p cs ≡ ok (set_candidates p l, taken))
      × (taken ++ l ≡ p.obj_free_candidates.value ++ added cs)
unfolding perform_all
perform_all-fifo [] p h =
    (p.obj_free_candidates.value, [], refl, sym (append-nil p.obj_free_candidates.value))
perform_all-fifo (c ∷ cs) p h =
    let r = on_list p.obj_free_candidates.value c in
    let (l, t, e, q) = perform_all-fifo cs (set_candidates p r.0) h in
    (
      l,
      r.1 ++ t,
      rw (perform-on_list p c h, e),
      on_list-added p.obj_free_candidates.value c cs t l q,
    )

pub add_obj_free_candidate-appends :
    (p : WeakProcessor) (object : ObjectReference)
    → p.obj_free_candidates.status ≡ free
    → add_obj_free_candidate p object
      ≡ ok (set_candidates p (p.obj_free_candidates.value ++ object ∷ []))
unfolding add_obj_free_candidate
add_obj_free_candidate-appends p object h = rw h refl

pub add_obj_free_candidates-appends :
    (p : WeakProcessor) (objects : List ObjectReference)
    → p.obj_free_candidates.status ≡ free
    → add_obj_free_candidates p objects
      ≡ ok (set_candidates p (p.obj_free_candidates.value ++ objects))
unfolding add_obj_free_candidates
add_obj_free_candidates-appends p objects h =
    rw (h, push_each-append p.obj_free_candidates.value objects) refl

pub get_all_obj_free_candidates-takes :
    (p : WeakProcessor)
    → p.obj_free_candidates.status ≡ free
    → get_all_obj_free_candidates p ≡ ok (set_candidates p [], p.obj_free_candidates.value)
unfolding get_all_obj_free_candidates
get_all_obj_free_candidates-takes p h = rw h refl
