-- ===== src/Utils/AfterAll/Invariant.antt =====
-- mmtk/src/utils.rs: what holds in every state that the workers of an `AfterAll` can reach.
use mmtk_ruby.Base.{
  ℕ, ◌+◌, ◌≤◌, ◌<◌, ◌^◌, ◌≡◌, refl, List, [], ◌∷◌, arith, if◌then◌else◌, ◌==◌, All,
}
use mmtk_ruby.Utils.AfterAll.Threads.{
  Pc, working, counted, borrowing, taken, returned, Shared, Move, count, leave, borrow,
  take_packets, bulk_add, Step, here, there, Reach, start, later,
}

module _ {P : Type 0} where
  -- The workers that have not counted down.
  abbrev pub waits : Pc P → ℕ
  waits working = 1
  waits _ = 0

  -- The workers that saw the counter at one.
  abbrev pub last : Pc P → ℕ
  last (counted old) = if old == 1 then 1 else 0
  last borrowing = 1
  last (taken _) = 1
  last (returned b) = if b then 1 else 0
  last working = 0

  abbrev pub holds : Pc P → ℕ
  holds borrowing = 1
  holds _ = 0

  abbrev pub carries : Pc P → ℕ
  carries (taken _) = 1
  carries _ = 0

  -- The workers whose call returned `true`.
  abbrev pub done : Pc P → ℕ
  done (returned b) = if b then 1 else 0
  done _ = 0

  abbrev pub total : (Pc P → ℕ) → List (Pc P) → ℕ
  total w [] = 0
  total w (p ∷ ps) = w p + total w ps

  -- What a worker carries is all that was added.
  abbrev pub CarriesAll : List P → Pc P → Type 0
  CarriesAll all (taken ps) = ps ≡ all
  CarriesAll all _ = Unit

  pub record Inv (all : List P) (s : Shared P) (ps : List (Pc P)) : Type 0 where
    pub small : s.counter < 2 ^ 64
    pub counts : s.counter ≡ total waits ps
    pub one_last : total last ps ≡ (if s.counter == 0 then 1 else 0)
    pub borrows : total holds ps ≡ (if s.borrowed then 1 else 0)
    pub carried : All (CarriesAll all) ps
    pub stock : s.packets ≡ (if total carries ps + total done ps == 0 then all else [])
    pub output : s.bucket ≡ (if total done ps == 0 then [] else all)

  -- The worker that moves, and the others: what any weight sums to before and after.
  record Focus (s s' : Shared P) (ps ps' : List (Pc P)) : Type 0 where
    old : Pc P
    new : Pc P
    move : Move s old s' new
    rest : (Pc P → ℕ) → ℕ
    before : (w : Pc P → ℕ) → total w ps ≡ w old + rest w
    after : (w : Pc P → ℕ) → total w ps' ≡ w new + rest w
    known : (all : List P) → All (CarriesAll all) ps → CarriesAll all old
    keeps : (all : List P) → All (CarriesAll all) ps → CarriesAll all new → All (CarriesAll all) ps'

  focus : {s s' : Shared P} {ps ps' : List (Pc P)} → Step s ps s' ps' → Focus s s' ps ps'
  focus (here {p} {p'} {ps} m) = record {
    old = p;
    new = p';
    move = m;
    rest = λ w. total w ps;
    before = λ w. refl;
    after = λ w. refl;
    known = λ all h. h.0;
    keeps = λ all h k. (k, h.1);
  }
  focus (there {p} st) =
      let f = focus st in
      record {
        old = f.old;
        new = f.new;
        move = f.move;
        rest = λ w. w p + f.rest w;
        before = λ w. omega (arith, f.before w);
        after = λ w. omega (arith, f.after w);
        known = λ all h. f.known all h.1;
        keeps = λ all h k. (h.0, f.keeps all h.1 k);
      }

  -- A worker that holds, carries or has returned `true` is one that saw the counter at one.
  pub parts-le-last :
      (ps : List (Pc P)) → total holds ps + total carries ps + total done ps ≤ total last ps
  parts-le-last [] = omega arith
  parts-le-last (working ∷ ps) = omega (arith, parts-le-last ps)
  parts-le-last (counted old ∷ ps) = ground (arith, parts-le-last ps)
  parts-le-last (borrowing ∷ ps) = omega (arith, parts-le-last ps)
  parts-le-last (taken qs ∷ ps) = omega (arith, parts-le-last ps)
  parts-le-last (returned b ∷ ps) = ground (arith, parts-le-last ps)

  -- The sums of the four weights around one move.
  record Sums (old new : Pc P) (ps ps' : List (Pc P)) : Type 0 where
    rw_ : ℕ
    rl : ℕ
    rh : ℕ
    rc : ℕ
    rd : ℕ
    w0 : total waits ps ≡ waits old + rw_
    w1 : total waits ps' ≡ waits new + rw_
    l0 : total last ps ≡ last old + rl
    l1 : total last ps' ≡ last new + rl
    h0 : total holds ps ≡ holds old + rh
    h1 : total holds ps' ≡ holds new + rh
    c0 : total carries ps ≡ carries old + rc
    c1 : total carries ps' ≡ carries new + rc
    d0 : total done ps ≡ done old + rd
    d1 : total done ps' ≡ done new + rd

  -- What a move does to the fields that are numbers or lists.
  Move-Inv :
      {all : List P} {s s' : Shared P} {old new : Pc P} {ps ps' : List (Pc P)}
      → Inv all s ps
      → Move s old s' new
      → Sums old new ps ps'
      → CarriesAll all old
      → (CarriesAll all new → All (CarriesAll all) ps')
      → Inv all s' ps'
  Move-Inv inv count t k c = record {
    small = ground arith;
    counts = ground arith;
    one_last = ground arith;
    borrows = ground arith;
    carried = c tt;
    stock = ground arith;
    output = ground arith;
  }
  Move-Inv inv (leave h) t k c = record {
    small = inv.small;
    counts = ground arith;
    one_last = ground arith;
    borrows = ground arith;
    carried = c tt;
    stock = ground arith;
    output = ground arith;
  }
  Move-Inv inv (borrow h b) t k c = record {
    small = inv.small;
    counts = ground arith;
    one_last = ground arith;
    borrows = ground arith;
    carried = c tt;
    stock = ground arith;
    output = ground arith;
  }
  Move-Inv {ps} inv take_packets t k c = record {
    small = inv.small;
    counts = ground arith;
    one_last = ground arith;
    borrows = ground (arith, parts-le-last ps);
    carried = c (ground (arith, parts-le-last ps));
    stock = ground arith;
    output = ground arith;
  }
  Move-Inv {ps} inv bulk_add t k c = record {
    small = inv.small;
    counts = ground arith;
    one_last = ground arith;
    borrows = ground arith;
    carried = c tt;
    stock = ground (arith, parts-le-last ps);
    output = ground (arith, parts-le-last ps);
  }

  pub Step-Inv :
      {all : List P} {s s' : Shared P} {ps ps' : List (Pc P)}
      → Step s ps s' ps'
      → Inv all s ps
      → Inv all s' ps'
  Step-Inv {all} {s} {s'} {ps} {ps'} st inv =
      Move-Inv inv f.move sums (f.known all inv.carried) (f.keeps all inv.carried)
    where
      f : Focus s s' ps ps'
      f = focus st

      sums : Sums f.old f.new ps ps'
      sums = record {
        rw_ = f.rest waits;
        rl = f.rest last;
        rh = f.rest holds;
        rc = f.rest carries;
        rd = f.rest done;
        w0 = f.before waits;
        w1 = f.after waits;
        l0 = f.before last;
        l1 = f.after last;
        h0 = f.before holds;
        h1 = f.after holds;
        c0 = f.before carries;
        c1 = f.after carries;
        d0 = f.before done;
        d1 = f.after done;
      }

  pub Reach-Inv :
      {all : List P} {s : Shared P} {ps : List (Pc P)} {s' : Shared P} {ps' : List (Pc P)}
      → Inv all s ps
      → Reach s ps s' ps'
      → Inv all s' ps'
  Reach-Inv inv start = inv
  Reach-Inv inv (later r st) = Step-Inv st (Reach-Inv inv r)
