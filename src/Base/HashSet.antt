-- ===== src/Base/HashSet.antt =====
-- Rust's `HashSet<ObjectReference>`: a list without repetitions. The order of iteration is not
-- specified: code that iterates takes it as an argument.
use Prim.Native.Nat.{ℕ}
use mathlib.Core.Path.{◌≡◌, refl, sym, ◌∙◌}
use mathlib.Core.Bool.{Bool, true, false, ◌||◌, false≢true}
use mathlib.Core.Logic.{inl, inr}
use mathlib.Core.List.{List, [], ◌∷◌, Permᴰ}
use native.Mathlib.Omega.{arith}
use mmtk_ruby.Base.Tests.{◌==◌, if◌then◌else◌, Bool-cases}

abbrev pub HashSet : Type 0
HashSet = List ℕ

unfoldable pub contains : HashSet → ℕ → Bool
contains [] a = false
contains (x ∷ xs) a = x == a || contains xs a

unfoldable pub insert : HashSet → ℕ → HashSet
unfolding contains
insert s a = if contains s a then s else a ∷ s

contains_same : (s : HashSet) (a b : ℕ) → contains s a ≡ true → a ≡ b → contains s b ≡ true
contains_same s a b h e = rw (← e) h

pub contains-insert : (s : HashSet) (a b : ℕ) → contains (insert s a) b ≡ (a == b || contains s b)
unfolding insert
contains-insert s a b = ground (arith, contains_same s a b)

pub contains-differs :
    (s : HashSet) (a b : ℕ) → contains s a ≡ false → contains s b ≡ true → (a == b) ≡ false
contains-differs s a b h k = ground (arith, contains_same s b a k)

-- Whether some element passes a test.
abbrev pub any {ℓ} : {A : Type ℓ} → (A → Bool) → List A → Bool
any p [] = false
any p (x ∷ xs) = p x || any p xs

-- Every element once.
abbrev pub IsHashSet : HashSet → Type 0
IsHashSet [] = Unit
IsHashSet (x ∷ xs) = (contains xs x ≡ false) × IsHashSet xs

pub insert-IsHashSet : (s : HashSet) (a : ℕ) → IsHashSet s → IsHashSet (insert s a)
unfolding insert
insert-IsHashSet s a h = ground arith

module _ {ℓ} {A : Type ℓ} (p : A → Bool) where
  -- The order does not matter.
  pub any-perm : {xs ys : List A} → Permᴰ xs ys → any p xs ≡ any p ys
  any-perm Permᴰ.nil = refl
  any-perm (Permᴰ.cons e h) = ground (arith, any-perm h)
  any-perm (Permᴰ.swap e f) = ground arith
  any-perm (Permᴰ.trans h k) = any-perm h ∙ any-perm k

module _ (p : ℕ → Bool) where
  any-witness : (s : HashSet) → any p s ≡ true → (x : ℕ) × (contains s x ≡ true) × (p x ≡ true)
  unfolding contains
  any-witness [] h = absurd (false≢true h)
  any-witness (x ∷ xs) h = elim (Bool-cases (p x)) [
    | inl here ↦ (x, ground arith, here)
    | inr there ↦ let (y, k, q) = any-witness xs (ground arith) in (y, ground arith, q)
  ]

  any_member : (s : HashSet) (x : ℕ) → contains s x ≡ true → p x ≡ true → any p s ≡ true
  unfolding contains
  any_member [] x h q = absurd (false≢true h)
  any_member (y ∷ ys) x h q = ground (arith, any_member ys x, same y)
    where
      same : (y : ℕ) → y ≡ x → p y ≡ true
      same y e = rw e q

  -- Only the members matter.
  pub any-members : (s t : HashSet) → ((x : ℕ) → contains s x ≡ contains t x) → any p s ≡ any p t
  any-members s t h = elim (Bool-cases (any p s)) [
    | inl found ↦
        let (x, k, q) = any-witness s found in found ∙ sym (any_member t x (sym (h x) ∙ k) q)
    | inr absent ↦ elim (Bool-cases (any p t)) [
      | inl found ↦
          let (x, k, q) = any-witness t found in
          absurd (false≢true (sym absent ∙ any_member s x (h x ∙ k) q))
      | inr lost ↦ absent ∙ sym lost
    ]
  ]
