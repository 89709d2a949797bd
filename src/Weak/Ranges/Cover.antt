-- ===== src/Weak/Ranges/Cover.antt =====
-- mmtk/src/weak_proc.rs: which indices the chunks of a range cover, and how often.
use mmtk_ruby.Base.{
  ℕ, zero, suc, ◌+◌, ◌-◌, ◌^◌, ◌≤◌, ◌<◌, ◌≡◌, refl, Bool, ◌&&◌, List, [], ◌∷◌, arith, ltb, leb,
  if◌then◌else◌, length, min, ok, panic, zero_step,
}
use mmtk_ruby.Build.{Build}
use mmtk_ruby.Build.{add_usize}
use mmtk_ruby.Weak.Ranges.{chunk_at, chunks_from, chunked_range}

-- The chunks that hold index `i`.
abbrev pub covers : ℕ → List (ℕ × ℕ) → ℕ
covers i [] = 0
covers i ((begin, end) ∷ cs) = (if leb begin i && ltb i end then 1 else 0) + covers i cs

-- Whether the index is in the range.
abbrev pub in_range : ℕ → ℕ → ℕ → Bool
in_range start bound i = leb start i && ltb i bound

-- The chunks, without the failures.
unfoldable pub chunk_list : ℕ → ℕ → ℕ → ℕ → ℕ → List (ℕ × ℕ)
chunk_list step size bound zero begin = []
chunk_list step size bound (suc fuel) begin =
    if ltb begin bound
    then (begin, min (begin + size) bound) ∷ chunk_list step size bound fuel (begin + step)
    else []

chunks_from-chunk_list :
    (build : Build) (step size bound fuel begin : ℕ)
    → bound + size ≤ 2 ^ 64
    → chunks_from build step size bound fuel begin ≡ ok (chunk_list step size bound fuel begin)
unfolding chunks_from chunk_at chunk_list add_usize
chunks_from-chunk_list build step size bound zero begin h = refl
chunks_from-chunk_list build step size bound (suc fuel) begin h =
    ground (arith, chunks_from-chunk_list build step size bound fuel (begin + step))

-- No more chunks than steps of the fuel.
pub length-chunk_list :
    (step size bound fuel begin : ℕ) → length (chunk_list step size bound fuel begin) ≤ fuel
unfolding chunk_list
length-chunk_list step size bound zero begin = omega arith
length-chunk_list step size bound (suc fuel) begin =
    ground (arith, length-chunk_list step size bound fuel (begin + step))

module _ (step size bound : ℕ) (pos : 0 < step) where
  covers-before :
      (fuel begin i : ℕ) → i < begin → covers i (chunk_list step size bound fuel begin) ≡ 0
  unfolding chunk_list
  covers-before zero begin i h = refl
  covers-before (suc fuel) begin i h = ground (arith, covers-before fuel (begin + step) i)

  covers-outside :
      (fuel begin i : ℕ) → bound ≤ i → covers i (chunk_list step size bound fuel begin) ≡ 0
  unfolding chunk_list
  covers-outside zero begin i h = refl
  covers-outside (suc fuel) begin i h = ground (arith, covers-outside fuel (begin + step) i)

  covers-once :
      (fuel begin i : ℕ)
      → size ≡ step
      → bound ≤ begin + fuel
      → begin ≤ i
      → i < bound
      → covers i (chunk_list step size bound fuel begin) ≡ 1
  unfolding chunk_list
  covers-once zero begin i e f h k = absurd (omega arith)
  covers-once (suc fuel) begin i e f h k =
      ground (arith, covers-once fuel (begin + step) i, covers-before fuel (begin + step) i)

  covers-some :
      (fuel begin i : ℕ)
      → step ≤ size
      → bound ≤ begin + fuel
      → begin ≤ i
      → i < bound
      → 1 ≤ covers i (chunk_list step size bound fuel begin)
  unfolding chunk_list
  covers-some zero begin i e f h k = absurd (omega arith)
  covers-some (suc fuel) begin i e f h k = ground (arith, covers-some fuel (begin + step) i)

  covers-gap :
      (fuel begin i : ℕ)
      → begin + size ≤ i
      → i < begin + step
      → covers i (chunk_list step size bound fuel begin) ≡ 0
  unfolding chunk_list
  covers-gap zero begin i h k = refl
  covers-gap (suc fuel) begin i h k = ground (arith, covers-before fuel (begin + step) i)

  covers-twice :
      (fuel begin i : ℕ)
      → step ≤ size
      → bound ≤ begin + fuel
      → begin + step ≤ i
      → i < begin + size
      → i < bound
      → 2 ≤ covers i (chunk_list step size bound fuel begin)
  unfolding chunk_list
  covers-twice zero begin i e f h k l = absurd (omega arith)
  covers-twice (suc fuel) begin i e f h k l = ground (arith, covers-some fuel (begin + step) i)

module _ (build : Build) (step size start bound : ℕ) where
  abbrev chunks_of : List (ℕ × ℕ)
  chunks_of = chunk_list step size bound (bound - start) start

  chunked_range_lem :
      0 < step → bound + size ≤ 2 ^ 64 → chunked_range build step size start bound ≡ ok chunks_of
  unfolding chunked_range
  chunked_range_lem p h =
      ground (arith, chunks_from-chunk_list build step size bound (bound - start) start)

  -- With chunks as long as the steps, and no overflow, `step_by` and `map` succeed, and the chunks
  -- hold each index of the range exactly once, and no other index; there are no more chunks than
  -- indices.
  pub chunked_range-partition :
      (i : ℕ)
      → 0 < step
      → size ≡ step
      → bound + size ≤ 2 ^ 64
      → (cs : List (ℕ × ℕ)) × (chunked_range build step size start bound ≡ ok cs)
        × (covers i cs ≡ (if in_range start bound i then 1 else 0))
        × (length cs ≤ bound - start)
  chunked_range-partition i p e h = (
    chunks_of,
    chunked_range_lem p h,
    ground (
      arith,
      covers-once step size bound p (bound - start) start i e,
      covers-before step size bound p (bound - start) start i,
      covers-outside step size bound p (bound - start) start i,
    ),
    length-chunk_list step size bound (bound - start) start,
  )

  -- With chunks at least as long as the steps, the chunks hold each index of the range at least
  -- once, and no other index.
  pub chunked_range-cover :
      (i : ℕ)
      → 0 < step
      → step ≤ size
      → bound + size ≤ 2 ^ 64
      → (cs : List (ℕ × ℕ)) × (chunked_range build step size start bound ≡ ok cs)
        × ((if in_range start bound i then 1 else 0) ≤ covers i cs)
        × (covers i cs ≡ (if in_range start bound i then covers i cs else 0))
  chunked_range-cover i p e h = (
    chunks_of,
    chunked_range_lem p h,
    ground (arith, covers-some step size bound p (bound - start) start i e),
    ground (
      arith,
      covers-before step size bound p (bound - start) start i,
      covers-outside step size bound p (bound - start) start i,
    ),
  )

  -- With chunks longer than the steps, the chunks overlap: each index of the range from one step
  -- after its start on, and less than the size of a chunk after it, is in two chunks at least.
  pub chunked_range-overlap :
      (i : ℕ)
      → 0 < step
      → step < size
      → bound + size ≤ 2 ^ 64
      → start + step ≤ i
      → i < start + size
      → i < bound
      → (cs : List (ℕ × ℕ)) × (chunked_range build step size start bound ≡ ok cs)
        × (2 ≤ covers i cs)
  chunked_range-overlap i p e h k l m = (
    chunks_of,
    chunked_range_lem p h,
    covers-twice step size bound p (bound - start) start i (omega arith) (omega arith) k l m,
  )

  -- With chunks shorter than the steps, there are gaps: no chunk holds an index that lies at least
  -- the size of a chunk, and less than a step, after the start of the range.
  pub chunked_range-gap :
      (i : ℕ)
      → 0 < step
      → bound + size ≤ 2 ^ 64
      → start + size ≤ i
      → i < start + step
      → (cs : List (ℕ × ℕ)) × (chunked_range build step size start bound ≡ ok cs)
        × (covers i cs ≡ 0)
  chunked_range-gap i p h k l =
      (chunks_of, chunked_range_lem p h, covers-gap step size bound p (bound - start) start i k l)

-- `step_by` panics on a step of zero.
pub chunked_range_zero :
    (build : Build) (size start bound : ℕ)
    → chunked_range build 0 size start bound ≡ panic zero_step
unfolding chunked_range
chunked_range_zero build size start bound = refl
