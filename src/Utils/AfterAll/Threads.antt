-- ===== src/Utils/AfterAll/Threads.antt =====
-- mmtk/src/utils.rs: `count_down` run by many workers at once, one shared access at a time.
use mathlib.Core.List.{append-nil}
use mmtk_ruby.Base.{
  ℕ, zero, suc, ◌≡◌, refl, ◌≢◌, Bool, true, false, List, [], ◌∷◌, ◌++◌, arith, ◌==◌, ==_iff,
  Bool-cases, inl, inr,
}
use mmtk_ruby.Utils.AfterAll.{AfterAll, fetch_sub_one, count_down}

-- Where a worker stands in `count_down`, with the locals that are live there.
pub data Pc (P : Type 0) : Type 0 where
  working : Pc P  -- before the call
  counted : (old : ℕ) → Pc P  -- after `fetch_sub`
  borrowing : Pc P  -- with the guard of `borrow_mut`
  taken : (packets : List P) → Pc P  -- before `bulk_add`
  returned : (is_last : Bool) → Pc P

-- The shared state: the counter, the `AtomicRefCell` with its borrow flag, and the bucket.
pub record Shared (P : Type 0) : Type 0 where
  pub counter : ℕ
  pub borrowed : Bool
  pub packets : List P
  pub bucket : List P

module _ {P : Type 0} where
  -- One step of one worker.
  pub data Move (s : Shared P) : Pc P → Shared P → Pc P → Type 0 where
    count : Move s working (record s { counter = fetch_sub_one s.counter }) (counted s.counter)
    leave : {old : ℕ} → old ≢ 1 → Move s (counted old) s (returned false)
    borrow :
        {old : ℕ}
        → old ≡ 1
        → s.borrowed ≡ false
        → Move s (counted old) (record s { borrowed = true }) borrowing
    take_packets : Move s borrowing (record s { borrowed = false; packets = [] }) (taken s.packets)
    bulk_add :
        {ps : List P} → Move s (taken ps) (record s { bucket = s.bucket ++ ps }) (returned true)

  -- `borrow_mut` panics on a cell that is borrowed.
  pub data Crash (s : Shared P) : Pc P → Type 0 where
    borrow_conflict : {old : ℕ} → old ≡ 1 → s.borrowed ≡ true → Crash s (counted old)

  -- A step of the system: one worker, anywhere in the list, moves.
  pub data Step (s : Shared P) : List (Pc P) → Shared P → List (Pc P) → Type 0 where
    here :
        {p p' : Pc P} {s' : Shared P} {ps : List (Pc P)}
        → Move s p s' p'
        → Step s (p ∷ ps) s' (p' ∷ ps)
    there :
        {p : Pc P} {s' : Shared P} {ps ps' : List (Pc P)}
        → Step s ps s' ps'
        → Step s (p ∷ ps) s' (p ∷ ps')

  pub data Reach (s : Shared P) (ps : List (Pc P)) : Shared P → List (Pc P) → Type 0 where
    start : Reach s ps s ps
    later :
        {s' s'' : Shared P} {ps' ps'' : List (Pc P)}
        → Reach s ps s' ps'
        → Step s' ps' s'' ps''
        → Reach s ps s'' ps''

  abbrev pub all_working : ℕ → List (Pc P)
  all_working zero = []
  all_working (suc n) = working ∷ all_working n

  -- The state of an `AfterAll` and its bucket when nobody is inside `count_down`.
  abbrev pub shared : AfterAll P → List P → Shared P
  shared a bucket = record {
    counter = a.counter;
    borrowed = false;
    packets = a.packets;
    bucket = bucket;
  }

  -- A worker that nobody interrupts computes `count_down`: its steps lead from the state before the
  -- call to the state, the bucket and the result that `count_down` gives.
  pub count_down_alone :
      (a : AfterAll P) (bucket : List P)
      → let r = count_down a in
        Reach (shared a bucket) (working ∷ []) (shared r.0 (bucket ++ r.1)) (returned r.2 ∷ [])
  unfolding count_down
  count_down_alone a bucket = elim (Bool-cases (a.counter == 1)) [
    | inl last ↦ rw last (
        later
          (later (later (later start (here count)) (here (borrow ((==_iff _ _).0 last) refl)))
            (here take_packets))
          (here bulk_add))
    | inr more ↦
        rw (more, append-nil) (later (later start (here count)) (here (leave (ground arith))))
  ]
