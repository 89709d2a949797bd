-- ===== src/Utils/Chunked.antt =====
-- mmtk/src/utils.rs: `ChunkedVecCollector`, which cuts a stream of items into chunks.
pub mod Laws
mod Tests
use mmtk_ruby.Base.{
  ℕ, Bool, true, false, List, [], ◌∷◌, ◌++◌, ◌==◌, if◌then◌else◌, length, is_empty,
}

pub record ChunkedVecCollector {ℓ} (A : Type ℓ) : Type ℓ where
  pub vecs : List (List A)
  pub current_vec : List A
  pub chunk_size : ℕ

module _ {ℓ} {A : Type ℓ} where
  pub new : ℕ → ChunkedVecCollector A
  new chunk_size = record { vecs = []; current_vec = []; chunk_size = chunk_size }

  flush : ChunkedVecCollector A → ChunkedVecCollector A
  flush c = record c { vecs = c.vecs ++ c.current_vec ∷ []; current_vec = [] }

  pub add : ChunkedVecCollector A → A → ChunkedVecCollector A
  unfolding flush
  add c item =
      let c' : ChunkedVecCollector A = record c { current_vec = c.current_vec ++ item ∷ [] } in
      if length c'.current_vec == c'.chunk_size then flush c' else c'

  pub into_vecs : ChunkedVecCollector A → List (List A)
  unfolding flush
  into_vecs c = (if is_empty c.current_vec then c else flush c).vecs

  -- `impl Extend`
  pub extend : ChunkedVecCollector A → List A → ChunkedVecCollector A
  extend c [] = c
  extend c (item ∷ items) = extend (add c item) items
