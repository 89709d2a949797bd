-- ===== src/Utils/Chunked/Laws.antt =====
-- mmtk/src/utils.rs: the collector against `slice::chunks`.
use mathlib.Core.List.{append_assoc, append-nil}
use mmtk_ruby.Base.{
  ℕ, ◌<◌, ◌≡◌, sym, ap, List, [], ◌∷◌, ◌++◌, arith, length, length-append, concat, chunks,
  IsChunked, chunks-nil, chunks_full, chunks_short, concat-chunks, chunks-IsChunked, ◌==◌, true,
  false, Bool-cases, inl, inr,
}
use mmtk_ruby.Utils.Chunked.{new, add, into_vecs, extend}

module _ {ℓ} {A : Type ℓ} where
  into_vecs_short :
      (n : ℕ) (vecs : List (List A)) (cur : List A)
      → length cur < n
      → into_vecs (record { vecs = vecs; current_vec = cur; chunk_size = n }) ≡ vecs ++ chunks n cur
  unfolding into_vecs
  into_vecs_short n vecs [] h = rw chunks-nil (sym (append-nil vecs))
  into_vecs_short n vecs (x ∷ cur) h = rw (chunks_short n x cur (omega arith))

  add_full :
      (n : ℕ) (vecs : List (List A)) (cur : List A) (x : A)
      → length (cur ++ x ∷ []) == n ≡ true
      → add (record { vecs = vecs; current_vec = cur; chunk_size = n }) x
        ≡ record { vecs = vecs ++ (cur ++ x ∷ []) ∷ []; current_vec = []; chunk_size = n }
  unfolding add
  add_full n vecs cur x e = rw e

  add_room :
      (n : ℕ) (vecs : List (List A)) (cur : List A) (x : A)
      → length (cur ++ x ∷ []) == n ≡ false
      → add (record { vecs = vecs; current_vec = cur; chunk_size = n }) x
        ≡ record { vecs = vecs; current_vec = cur ++ x ∷ []; chunk_size = n }
  unfolding add
  add_room n vecs cur x e = rw e

  -- Some chunks are cut off already, and fewer than `n` items wait.
  extend_from :
      (n : ℕ) (vecs : List (List A)) (cur xs : List A)
      → length cur < n
      → into_vecs (extend (record { vecs = vecs; current_vec = cur; chunk_size = n }) xs)
        ≡ vecs ++ chunks n (cur ++ xs)
  unfolding extend
  extend_from n vecs cur [] h = rw append-nil (into_vecs_short n vecs cur h)
  extend_from n vecs cur (x ∷ xs) h = elim (Bool-cases (length (cur ++ x ∷ []) == n)) [
    | inl full ↦
        rw
          (
            add_full n vecs cur x full,
            extend_from n (vecs ++ (cur ++ x ∷ []) ∷ []) [] xs (omega arith),
            append_assoc,
            ← append_assoc cur (x ∷ []) xs,
          )
          (ap (λ r. vecs ++ r)
            (sym (chunks_full n (cur ++ x ∷ []) xs (omega arith) (ground arith))))
    | inr room ↦
        rw
          (
            add_room n vecs cur x room,
            extend_from n vecs (cur ++ x ∷ []) xs (ground (arith, length-append cur (x ∷ []))),
          )
          (ap (λ r. vecs ++ chunks n r) (append_assoc cur (x ∷ []) xs))
  ]

  -- For a positive chunk size, collecting a stream of items and taking the vectors out is
  -- `slice::chunks` of the stream.
  pub into_vecs-extend : (n : ℕ) (xs : List A) → 0 < n → into_vecs (extend (new n) xs) ≡ chunks n xs
  unfolding new
  into_vecs-extend n xs h = extend_from n [] [] xs h

  -- For a positive chunk size, no item is lost, doubled or moved, all vectors but the last have exactly the chunk size,
  -- and the last one is neither empty nor longer.
  pub into_vecs_partition :
      (n : ℕ) (xs : List A)
      → 0 < n
      → (concat (into_vecs (extend (new n) xs)) ≡ xs) × IsChunked n (into_vecs (extend (new n) xs))
  into_vecs_partition n xs h =
      rw (into_vecs-extend n xs h) (concat-chunks n xs h, chunks-IsChunked n xs h)

  -- With chunk size 0 the test of `add` never passes: all items end up in one vector.
  extend_zero :
      (cur xs : List A)
      → extend (record { vecs = []; current_vec = cur; chunk_size = 0 }) xs
        ≡ record { vecs = []; current_vec = cur ++ xs; chunk_size = 0 }
  unfolding extend
  extend_zero cur [] = rw append-nil
  extend_zero cur (x ∷ xs) = rw (
    add_room 0 [] cur x (ground (arith, length-append cur (x ∷ []))),
    extend_zero (cur ++ x ∷ []) xs,
    append_assoc,
  )

  pub into_vecs_zero : (x : A) (xs : List A) → into_vecs (extend (new 0) (x ∷ xs)) ≡ (x ∷ xs) ∷ []
  unfolding new into_vecs
  into_vecs_zero x xs = rw (extend_zero [] (x ∷ xs), into_vecs)
