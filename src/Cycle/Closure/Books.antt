-- ===== src/Cycle/Closure/Books.antt =====
-- mmtk/src/weak_proc.rs: what each packet of the weak processing does to the binding, when the heap is
-- given: a function in which CRuby has no part.
use mathlib.Core.List.{Permᴰ, append_assoc}
use mathlib.Core.List.Permᴰ as Perm
use mmtk_ruby.Base.{
  ◌==◌, ◌≡◌, refl, sym, subst, ap, ◌∙◌, Bool, true, false, List, [], ◌∷◌, ◌++◌, map, keep, Mutex,
  unlocked,
}
use mmtk_ruby.Base.HashSet.{HashSet}
use mmtk_ruby.Vm.{ObjectReference, Core}
use mmtk_ruby.Givtbl.{MovedGivtbl}
use mmtk_ruby.Packet.{
  Packet, process_obj_free_candidates, table_processor, update_generic_iv_tbl,
  update_wb_unprotected_objects_list, update_table_entries,
}
use mmtk_ruby.Utils.AfterAll.{AfterAll, count_down}
use mmtk_ruby.Weak.{WeakProcessor, set_candidates, forward}
use mmtk_ruby.Weak.WbList.{update_objects}

-- The part of the state that belongs to the binding.
pub record Books : Type 0 where
  pub weak_proc : WeakProcessor
  pub moved_givtbl : Mutex MovedGivtbl
  pub wb_unprotected : Mutex HashSet
  pub strings : AfterAll Packet
  pub symbols : AfterAll Packet

-- Which part a packet changes.
pub data Effect : Type 0 where
  frees : Effect
  drains : Effect
  updates : Effect
  counts_string : Effect
  counts_symbol : Effect
  nothing : Effect

abbrev pub counts : Bool → Effect
counts true = counts_string
counts false = counts_symbol

unfoldable pub effect : Packet → Effect
effect process_obj_free_candidates = frees
effect (table_processor update_generic_iv_tbl) = drains
effect update_wb_unprotected_objects_list = updates
effect (update_table_entries p) = counts (p.after_all == 0)
effect _ = nothing

module _ {W : Type 0} (core : Core W) (order : HashSet → List ObjectReference) (w₀ : W) where
  -- What is released, and what is left, if the heap is that of `w₀`.
  abbrev pub settle : Effect → Books → List Packet × Books
  settle frees b = (
    [],
    record b {
      weak_proc = set_candidates b.weak_proc (
          map (forward core w₀)
            (keep (core.is_reachable w₀) b.weak_proc.obj_free_candidates.value));
    },
  )
  settle drains b = ([], record b { moved_givtbl = unlocked [] })
  settle updates b = (
    [],
    record b {
      wb_unprotected = record {
        status = b.wb_unprotected.status;
        value = update_objects core w₀ (order b.wb_unprotected.value) [];
      };
    },
  )
  settle counts_string b =
      ((count_down b.strings).1, record b { strings = (count_down b.strings).0 })
  settle counts_symbol b =
      ((count_down b.symbols).1, record b { symbols = (count_down b.symbols).0 })
  settle nothing b = ([], b)

  abbrev pub settle_all : List Packet → Books → List Packet × Books
  settle_all [] b = ([], b)
  settle_all (p ∷ ps) b =
      let r = settle (effect p) b in let rest = settle_all ps r.1 in (r.0 ++ rest.0, rest.1)

  -- Two packets can be swapped.
  Swaps : Effect → Effect → Books → Type 0
  Swaps p q b =
      ((settle q (settle p b).1).1 ≡ (settle p (settle q b).1).1)
      × Permᴰ ((settle p b).0 ++ (settle q (settle p b).1).0)
          ((settle q b).0 ++ (settle p (settle q b).1).0)

  apart :
      (p q : Effect) (b : Books)
      → (settle q (settle p b).1).1 ≡ (settle p (settle q b).1).1
      → (settle q (settle p b).1).0 ≡ (settle q b).0
      → (settle p (settle q b).1).0 ≡ (settle p b).0
      → Swaps p q b
  unfolding Swaps
  apart p q b e h k = (e, rw (h, k) (Perm.append_comm (settle p b).0 (settle q b).0))

  settle_swap : (p q : Effect) (b : Books) → Swaps p q b
  unfolding Swaps
  settle_swap frees frees b =
      (refl, Perm.refl ((settle frees b).0 ++ (settle frees (settle frees b).1).0))
  settle_swap frees drains b = apart frees drains b refl refl refl
  settle_swap frees updates b = apart frees updates b refl refl refl
  settle_swap frees counts_string b = apart frees counts_string b refl refl refl
  settle_swap frees counts_symbol b = apart frees counts_symbol b refl refl refl
  settle_swap frees nothing b = apart frees nothing b refl refl refl
  settle_swap drains frees b = apart drains frees b refl refl refl
  settle_swap drains drains b =
      (refl, Perm.refl ((settle drains b).0 ++ (settle drains (settle drains b).1).0))
  settle_swap drains updates b = apart drains updates b refl refl refl
  settle_swap drains counts_string b = apart drains counts_string b refl refl refl
  settle_swap drains counts_symbol b = apart drains counts_symbol b refl refl refl
  settle_swap drains nothing b = apart drains nothing b refl refl refl
  settle_swap updates frees b = apart updates frees b refl refl refl
  settle_swap updates drains b = apart updates drains b refl refl refl
  settle_swap updates updates b =
      (refl, Perm.refl ((settle updates b).0 ++ (settle updates (settle updates b).1).0))
  settle_swap updates counts_string b = apart updates counts_string b refl refl refl
  settle_swap updates counts_symbol b = apart updates counts_symbol b refl refl refl
  settle_swap updates nothing b = apart updates nothing b refl refl refl
  settle_swap counts_string frees b = apart counts_string frees b refl refl refl
  settle_swap counts_string drains b = apart counts_string drains b refl refl refl
  settle_swap counts_string updates b = apart counts_string updates b refl refl refl
  settle_swap counts_string counts_string b = (
    refl,
    Perm.refl ((settle counts_string b).0 ++ (settle counts_string (settle counts_string b).1).0),
  )
  settle_swap counts_string counts_symbol b = apart counts_string counts_symbol b refl refl refl
  settle_swap counts_string nothing b = apart counts_string nothing b refl refl refl
  settle_swap counts_symbol frees b = apart counts_symbol frees b refl refl refl
  settle_swap counts_symbol drains b = apart counts_symbol drains b refl refl refl
  settle_swap counts_symbol updates b = apart counts_symbol updates b refl refl refl
  settle_swap counts_symbol counts_string b = apart counts_symbol counts_string b refl refl refl
  settle_swap counts_symbol counts_symbol b = (
    refl,
    Perm.refl ((settle counts_symbol b).0 ++ (settle counts_symbol (settle counts_symbol b).1).0),
  )
  settle_swap counts_symbol nothing b = apart counts_symbol nothing b refl refl refl
  settle_swap nothing frees b = apart nothing frees b refl refl refl
  settle_swap nothing drains b = apart nothing drains b refl refl refl
  settle_swap nothing updates b = apart nothing updates b refl refl refl
  settle_swap nothing counts_string b = apart nothing counts_string b refl refl refl
  settle_swap nothing counts_symbol b = apart nothing counts_symbol b refl refl refl
  settle_swap nothing nothing b =
      (refl, Perm.refl ((settle nothing b).0 ++ (settle nothing (settle nothing b).1).0))

  of_path : {xs ys : List Packet} → xs ≡ ys → Permᴰ xs ys
  of_path {xs} e = subst (λ x. Permᴰ xs x) e (Perm.refl xs)

  -- The same is left, and the same is released, in some order.
  abbrev pub Alike : List Packet → List Packet → Books → Type 0
  Alike ps qs k =
      ((settle_all ps k).1 ≡ (settle_all qs k).1) × Permᴰ (settle_all ps k).0 (settle_all qs k).0

  swap_two : (a b : Packet) (l : List Packet) (k : Books) → Alike (a ∷ b ∷ l) (b ∷ a ∷ l) k
  unfolding Swaps
  swap_two a b l k =
      let (same, rel) = settle_swap (effect a) (effect b) k in
      let x = settle (effect a) k in
      let x' = settle (effect b) x.1 in
      let y = settle (effect b) k in
      let y' = settle (effect a) y.1 in
      (
        ap (λ z. (settle_all l z).1) same,
        Permᴰ.trans (of_path (sym (append_assoc x.0 x'.0 (settle_all l x'.1).0))) (
            Permᴰ.trans (Perm.append_right (settle_all l x'.1).0 rel) (
              of_path (
                append_assoc y.0 y'.0 (settle_all l x'.1).0
                ∙ ap (λ z. y.0 ++ (y'.0 ++ (settle_all l z).0)) same))),
      )

  pub settle_all-perm : {ps qs : List Packet} → Permᴰ ps qs → (k : Books) → Alike ps qs k
  settle_all-perm Permᴰ.nil k = (refl, Permᴰ.nil)
  settle_all-perm (Permᴰ.cons {a} {b} {l₁} {l₂} e h) k =
      let (same, rel) = settle_all-perm h (settle (effect b) k).1 in
      subst (λ x. Alike (x ∷ l₁) (b ∷ l₂) k) (sym e)
        (same, Perm.append_left (settle (effect b) k).0 rel)
  settle_all-perm (Permᴰ.swap {a} {b} {a'} {b'} {l} e f) k =
      subst (λ x. Alike (a ∷ b ∷ l) (x ∷ b' ∷ l) k) f
        (subst (λ x. Alike (a ∷ b ∷ l) (b ∷ x ∷ l) k) e (swap_two a b l k))
  settle_all-perm (Permᴰ.trans h h') k =
      let (same, rel) = settle_all-perm h k in
      let (same', rel') = settle_all-perm h' k in (same ∙ same', Permᴰ.trans rel rel')
