-- ===== src/Utils/AfterAll/Safety.antt =====
-- mmtk/src/utils.rs: when the packets of an `AfterAll` are released, and by whom.
use native.Mathlib.Decide.{ℕ_discrete}
use mmtk_ruby.Base.{
  ℕ, zero, suc, ◌+◌, ◌≤◌, ◌<◌, ◌^◌, ◌≡◌, refl, Bool, true, false, List, [], ◌∷◌, arith, ◌⊎◌, inl,
  inr, All,
}
use mmtk_ruby.Stage.{WorkBucketStage}
use mmtk_ruby.Utils.AfterAll.{AfterAll, new, add_packets, count_up}
use mmtk_ruby.Utils.AfterAll.Threads.{
  Pc, working, counted, borrowing, taken, returned, Shared, Move, count, leave, borrow,
  take_packets, bulk_add, Crash, borrow_conflict, Step, here, there, Reach, start, later,
  all_working, shared,
}
use mmtk_ruby.Utils.AfterAll.Invariant.{
  waits, last, holds, carries, done, total, CarriesAll, Inv, parts-le-last, Reach-Inv,
}

not_borrowed : (b : Bool) → ¬ (b ≡ true) → b ≡ false
not_borrowed b h = ground arith

module _ {P : Type 0} where
  pub data At (p : Pc P) : List (Pc P) → Type 0 where
    first : {ps : List (Pc P)} → At p (p ∷ ps)
    further : {q : Pc P} {ps : List (Pc P)} → At p ps → At p (q ∷ ps)

  -- A worker about to borrow is one more of those that saw the counter at one.
  Crash-le-last :
      {s : Shared P} {p : Pc P} {ps : List (Pc P)}
      → Crash s p
      → At p ps
      → (s.borrowed ≡ true) × (total holds ps + 1 ≤ total last ps)
  Crash-le-last (borrow_conflict e b) (first {ps = qs}) = ground (arith, parts-le-last qs)
  Crash-le-last c (further {q} {ps = qs} a) =
      ground (arith, Crash-le-last c a, parts-le-last (q ∷ []))

  -- The workers whose call has not returned.
  abbrev pub unfinished : Pc P → ℕ
  unfinished (returned _) = 0
  unfinished _ = 1

  finished :
      (ps : List (Pc P))
      → (total waits ps ≤ total unfinished ps)
        × (total last ps ≤ total done ps + total unfinished ps)
  finished [] = omega arith
  finished (working ∷ ps) = omega (arith, finished ps)
  finished (counted old ∷ ps) = ground (arith, finished ps)
  finished (borrowing ∷ ps) = omega (arith, finished ps)
  finished (taken qs ∷ ps) = omega (arith, finished ps)
  finished (returned b ∷ ps) = ground (arith, finished ps)

  -- The steps that a worker has left, at most.
  abbrev pub fuel : Pc P → ℕ
  fuel working = 4
  fuel (counted _) = 3
  fuel borrowing = 2
  fuel (taken _) = 1
  fuel (returned _) = 0

  Move-fuel : {s s' : Shared P} {p p' : Pc P} → Move s p s' p' → fuel p' < fuel p
  Move-fuel count = omega arith
  Move-fuel (leave h) = omega arith
  Move-fuel (borrow h b) = omega arith
  Move-fuel take_packets = omega arith
  Move-fuel bulk_add = omega arith

  pub Step-fuel :
      {s s' : Shared P} {ps ps' : List (Pc P)} → Step s ps s' ps' → total fuel ps' < total fuel ps
  Step-fuel (here m) = omega (arith, Move-fuel m)
  Step-fuel (there st) = omega (arith, Step-fuel st)

  -- Some worker can move, unless every call has returned.
  can_move :
      (s : Shared P) (ps : List (Pc P))
      → ((p : Pc P) → At p ps → ¬ Crash s p)
      → (total unfinished ps ≡ 0) ⊎ ((s' : Shared P) × (ps' : List (Pc P)) × Step s ps s' ps')
  can_move s [] h = inl refl
  can_move s (working ∷ ps) h = inr (_, _, here count)
  can_move s (borrowing ∷ ps) h = inr (_, _, here take_packets)
  can_move s (taken qs ∷ ps) h = inr (_, _, here bulk_add)
  can_move s (counted old ∷ ps) h = elim (ℕ_discrete old 1) [
    | yes e ↦ inr (
      _,
      _,
      here (borrow e (not_borrowed s.borrowed (λ b. h (counted old) first (borrow_conflict e b)))),
    )
    | no e ↦ inr (_, _, here (leave e))
  ]
  can_move s (returned b ∷ ps) h = elim (can_move s ps (λ p a. h p (further a))) [
    | inl e ↦ inl (omega arith)
    | inr (s', ps', st) ↦ inr (s', _, there st)
  ]

module _ (P : Type 0) where
  total-all_working : (n : ℕ) → total waits (all_working {P = P} n) ≡ n
  total-all_working zero = refl
  total-all_working (suc n) = omega (arith, total-all_working n)

  nobody_else :
      (n : ℕ)
      → (total last (all_working {P = P} n) ≡ 0)
        × (total holds (all_working {P = P} n) ≡ 0)
        × (total carries (all_working {P = P} n) ≡ 0)
        × (total done (all_working {P = P} n) ≡ 0)
  nobody_else zero = (refl, refl, refl, refl)
  nobody_else (suc n) = omega (arith, nobody_else n)

  carried_none : (all : List P) (n : ℕ) → All (CarriesAll all) (all_working n)
  carried_none all zero = tt
  carried_none all (suc n) = (tt, carried_none all n)

module _ {P : Type 0} (stage : WorkBucketStage) (n : ℕ) (all : List P) where
  -- As `process_weak_table_chunked` sets it up: `n` workers will count down, and then the packets
  -- `all` are due.
  abbrev pub prepared : AfterAll P
  prepared = add_packets (count_up (new stage) n) all

  prepared-Inv : 0 < n → n < 2 ^ 64 → Inv all (shared prepared []) (all_working n)
  unfolding new add_packets count_up
  prepared-Inv p h = record {
    small = omega arith;
    counts = omega (arith, total-all_working P n);
    one_last = ground (arith, nobody_else P n);
    borrows = ground (arith, nobody_else P n);
    carried = carried_none P all n;
    stock = ground (arith, nobody_else P n);
    output = ground (arith, nobody_else P n);
  }

  -- The states that `n` workers can reach from there, in any interleaving.
  abbrev pub Runs : Shared P → List (Pc P) → Type 0
  Runs = Reach (shared prepared []) (all_working n)

  -- With at least one worker, and fewer than 2 ^ 64: in every interleaving the bucket holds nothing, or it holds the packets that were added, once
  -- each and in order, and then every worker has counted down.
  pub released_once :
      {s : Shared P} {ps : List (Pc P)}
      → 0 < n
      → n < 2 ^ 64
      → Runs s ps
      → (s.bucket ≡ []) ⊎ ((s.bucket ≡ all) × (total waits ps ≡ 0))
  released_once {ps} p h r = ground (arith, Reach-Inv (prepared-Inv p h) r, parts-le-last ps)

  -- With at least one worker, and fewer than 2 ^ 64: no worker ever finds the cell of the packets borrowed, so `borrow_mut` does not panic.
  pub no_borrow_conflict :
      {s : Shared P} {ps : List (Pc P)} {p : Pc P}
      → 0 < n
      → n < 2 ^ 64
      → Runs s ps
      → At p ps
      → ¬ Crash s p
  no_borrow_conflict {s} {ps} p h r a c =
      ground (arith, Reach-Inv (prepared-Inv p h) r, Crash-le-last c a)

  -- With at least one worker, and fewer than 2 ^ 64: where no worker can move any more, every call has returned, the packets have been released
  -- exactly once, and exactly one call has returned `true`.
  pub runs_end :
      {s : Shared P} {ps : List (Pc P)}
      → 0 < n
      → n < 2 ^ 64
      → Runs s ps
      → ((s' : Shared P) (ps' : List (Pc P)) → ¬ Step s ps s' ps')
      → (total unfinished ps ≡ 0) × (s.bucket ≡ all) × (s.packets ≡ []) × (total done ps ≡ 1)
  runs_end {s} {ps} p h r stuck = ground (arith, inv, parts-le-last ps, finished ps, idle)
    where
      inv : Inv all s ps
      inv = Reach-Inv (prepared-Inv p h) r

      idle : total unfinished ps ≡ 0
      idle = elim (can_move s ps (λ q a c. no_borrow_conflict p h r a c)) [
        | inl e ↦ e
        | inr (s', ps', st) ↦ absurd (stuck s' ps' st)
      ]

  Reach-trans :
      {s : Shared P} {ps : List (Pc P)} {s₁ : Shared P} {ps₁ : List (Pc P)} {s₂ : Shared P}
      {ps₂ : List (Pc P)}
      → Reach s ps s₁ ps₁
      → Reach s₁ ps₁ s₂ ps₂
      → Reach s ps s₂ ps₂
  Reach-trans r start = r
  Reach-trans r (later c st) = later (Reach-trans r c) st

  finish_within :
      (k : ℕ) {s₀ : Shared P} {ps₀ : List (Pc P)} {s : Shared P} {ps : List (Pc P)}
      → 0 < n
      → n < 2 ^ 64
      → total fuel ps ≤ k
      → Runs s₀ ps₀
      → Reach s₀ ps₀ s ps
      → (s' : Shared P) × (ps' : List (Pc P)) × Reach s₀ ps₀ s' ps' × (total unfinished ps' ≡ 0)
  finish_within zero {s₀} {ps₀} {s} {ps} p h le r c =
      elim (can_move s ps (λ q a k. no_borrow_conflict p h (Reach-trans r c) a k)) [
        | inl e ↦ (s, ps, c, e)
        | inr (s', ps', st) ↦ absurd (omega (arith, le, Step-fuel st))
      ]
  finish_within (suc k) {s₀} {ps₀} {s} {ps} p h le r c =
      elim (can_move s ps (λ q a k. no_borrow_conflict p h (Reach-trans r c) a k)) [
        | inl e ↦ (s, ps, c, e)
        | inr (s', ps', st) ↦ finish_within k p h (omega (arith, le, Step-fuel st)) r (later c st)
      ]

  -- With at least one worker, and fewer than 2 ^ 64: however the workers have been interleaved so far,
  -- the run can be continued until every call has returned; the packets have then been released
  -- exactly once, and exactly one call has returned `true`.
  pub can_finish :
      {s : Shared P} {ps : List (Pc P)}
      → 0 < n
      → n < 2 ^ 64
      → Runs s ps
      → (s' : Shared P) × (ps' : List (Pc P)) × Reach s ps s' ps'
        × (total unfinished ps' ≡ 0)
        × (s'.bucket ≡ all)
        × (s'.packets ≡ [])
        × (total done ps' ≡ 1)
  can_finish {s} {ps} p h r =
      let (s', ps', c, idle) = finish_within (total fuel ps) p h (omega arith) r start in
      let inv : Inv all s' ps' = Reach-Inv (prepared-Inv p h) (Reach-trans r c) in
      let rest : (s'.bucket ≡ all) × (s'.packets ≡ []) × (total done ps' ≡ 1) =
        ground (arith, inv, parts-le-last ps', finished ps', idle) in
      (s', ps', c, idle, rest.0, rest.1, rest.2)
