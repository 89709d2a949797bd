-- ===== src/Vm/Scripts.antt =====
-- Addresses, object references, and C code that calls the object closure while it runs.
use mmtk_ruby.Base.{ℕ, Bool, List, [], ◌∷◌}

abbrev pub Address : Type 0
Address = ℕ

-- `ObjectReference` of mmtk-core: an address that is not zero.
abbrev pub ObjectReference : Type 0
ObjectReference = ℕ

-- A run of CRuby code in state `W`: it ends, or it visits an object through the object closure of
-- the thread, and goes on with the state and the reference that it gets back.
pub data Script (W : Type 0) : Type 0 where
  finish : W → Script W
  visit : W → ObjectReference → (pin : Bool) → (W → ObjectReference → Script W) → Script W

-- Every state in which the code makes a visit or ends satisfies `P`, if each visit keeps `P`.
abbrev pub Keeps : {W : Type 0} → (W → Type 0) → Script W → Type 0
Keeps P (finish w) = P w
Keeps {W} P (visit w object pin rest) =
    P w × ((w' : W) (object' : ObjectReference) → P w' → Keeps P (rest w' object'))

-- The objects that the code visits, if every visit hands the reference back as it is and leaves the
-- state alone; and the state at its end.
abbrev pub visits : {W : Type 0} → Script W → List ObjectReference × W
visits (finish w) = ([], w)
visits (visit w object pin rest) = let (os, w') = visits (rest w object) in (object ∷ os, w')
