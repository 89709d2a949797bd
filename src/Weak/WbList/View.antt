-- ===== src/Weak/WbList/View.antt =====
-- mmtk/src/weak_proc.rs: the set of WB-unprotected objects as a set: a quotient that forgets the
-- order in which a `HashSet` keeps its members.
use mathlib.Core.List.{Permᴰ}
use mathlib.Core.Quot
use mathlib.Core.Quot.{Quot, Quot-set}
use mmtk_ruby.Base.{◌≡◌, refl, sym, ap, ◌∙◌, Bool, ◌||◌, ◌==◌, List, [], ok, Mutex, free, arith}
use mmtk_ruby.Base.HashSet
use mmtk_ruby.Base.HashSet.{HashSet, contains-insert, any, any-perm, any-members}
use mmtk_ruby.Vm.{ObjectReference, Core}
use mmtk_ruby.Weak.WbList.{update_objects, do_work, goes_to, update_objects-contains}

SameMembers : HashSet → HashSet → Type 0
SameMembers s t = (x : ObjectReference) → HashSet.contains s x ≡ HashSet.contains t x

pub Members : Type 0
Members = Quot SameMembers

pub members : HashSet → Members
unfolding Members
members s = Quot.mk s

Bool-IsSet : IsSet Bool
Bool-IsSet = hlevel

pub is_member : ObjectReference → Members → Bool
unfolding Members SameMembers
is_member x = Quot.lift Bool-IsSet (λ s. HashSet.contains s x) (λ s t h. h x)

pub is_member-members :
    (x : ObjectReference) (s : HashSet) → is_member x (members s) ≡ HashSet.contains s x
unfolding is_member members
is_member-members x s = refl

-- Sets with the same members are equal.
pub members-ext :
    (s t : HashSet)
    → ((x : ObjectReference) → HashSet.contains s x ≡ HashSet.contains t x)
    → members s ≡ members t
unfolding members SameMembers
members-ext s t h = Quot.sound h

pub add : ObjectReference → Members → Members
unfolding Members SameMembers
add o =
    Quot.lift Quot-set (λ s. Quot.mk (HashSet.insert s o))
      (λ s t h.
        Quot.sound
          (λ x. contains-insert s o x ∙ ap (λ b. o == x || b) (h x) ∙ sym (contains-insert t o x)))

pub add-members :
    (o : ObjectReference) (s : HashSet) → add o (members s) ≡ members (HashSet.insert s o)
unfolding add members
add-members o s = refl

-- The order in which objects are added does not matter.
pub add_comm : (a b : ObjectReference) (q : Members) → add a (add b q) ≡ add b (add a q)
unfolding add Members SameMembers
add_comm a b =
    Quot.ind (λ q. Quot-set _ _)
      (λ s. Quot.sound (λ x.
        contains-insert (HashSet.insert s b) a x
        ∙ ap (λ t. a == x || t) (contains-insert s b x)
        ∙ ground arith
        ∙ ap (λ t. b == x || t) (sym (contains-insert s a x))
        ∙ sym (contains-insert (HashSet.insert s a) b x)))

module _ {W : Type 0} (core : Core W) (w : W) where
  update-contains :
      (s : HashSet) (y : ObjectReference)
      → HashSet.contains (update_objects core w s []) y ≡ any (goes_to core w y) s
  unfolding HashSet.contains
  update-contains s y = update_objects-contains core w s [] y

  -- What becomes of the set in a collection: its reachable members, where they are now.
  pub updated : Members → Members
  unfolding Members SameMembers
  updated =
      Quot.lift Quot-set (λ s. Quot.mk (update_objects core w s []))
        (λ s t h. Quot.sound (λ y.
          update-contains s y ∙ any-members (goes_to core w y) s t h ∙ sym (update-contains t y)))

  -- An object is in the updated set exactly if some member is reachable and goes to it.
  pub is_member-updated :
      (y : ObjectReference) (s : HashSet)
      → is_member y (updated (members s)) ≡ any (goes_to core w y) s
  unfolding is_member updated members
  is_member-updated y s = update-contains s y

  -- While nobody holds the lock, and in whatever order the old set is iterated over, the packet
  -- succeeds, and the new set, as a set without order, is the update of the old one: an object is in
  -- it exactly if some reachable member of the old set is there now. Two orders of iteration give
  -- equal sets.
  pub do_work-updated :
      (order order' : HashSet → List ObjectReference) (m : Mutex HashSet) (y : ObjectReference)
      → ((s : HashSet) → Permᴰ (order s) s)
      → ((s : HashSet) → Permᴰ (order' s) s)
      → m.status ≡ free
      → (s s' : HashSet) × (do_work core w order m ≡ ok (record { status = m.status; value = s }))
        × (do_work core w order' m ≡ ok (record { status = m.status; value = s' }))
        × (members s ≡ updated (members m.value))
        × (is_member y (members s) ≡ any (goes_to core w y) m.value)
        × (members s ≡ members s')
  unfolding do_work updated members is_member Members SameMembers
  do_work-updated order order' m y perm perm' h =
      let same : (o : HashSet → List ObjectReference)
          → ((s : HashSet) → Permᴰ (o s) s)
          → SameMembers (update_objects core w (o m.value) []) (update_objects core w m.value []) =
        λ o p x.
          update-contains (o m.value) x
          ∙ any-perm (goes_to core w x) (p m.value)
          ∙ sym (update-contains m.value x) in
      (
        update_objects core w (order m.value) [],
        update_objects core w (order' m.value) [],
        rw h,
        rw h,
        Quot.sound (same order perm),
        same order perm y ∙ update-contains m.value y,
        Quot.sound (same order perm) ∙ sym (Quot.sound (same order' perm')),
      )
