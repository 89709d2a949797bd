-- ===== src/Weak/Ranges.antt =====
-- mmtk/src/weak_proc.rs: how `process_weak_table_chunked` cuts the entries and the bins of a table.
pub mod Cover
use mmtk_ruby.Base.{
  ℕ, zero, suc, ◌+◌, ◌-◌, ◌%◌, ◌^◌, Bool, true, false, List, [], ◌∷◌, ltb, ◌==◌, if◌then◌else◌, min,
  Outcome, ok, panic, ◌>>=◌, overflow, zero_step,
}
use mmtk_ruby.Build.{Build, add_usize}

-- The closure of `map` for the chunk that begins at `begin`.
unfoldable pub chunk_at : Build → ℕ → ℕ → ℕ → Outcome (ℕ × ℕ)
unfolding add_usize
chunk_at build size bound begin = add_usize build begin size >>= λ end. ok (begin, min end bound)

-- The chunks from `begin` on, on fuel: each step takes `begin` nearer to `bound`.
unfoldable pub chunks_from : Build → ℕ → ℕ → ℕ → ℕ → ℕ → Outcome (List (ℕ × ℕ))
chunks_from build step size bound zero begin = ok []
chunks_from build step size bound (suc fuel) begin =
    let rest = chunks_from build step size bound fuel (begin + step) in
    if ltb begin bound
    then (chunk_at build size bound begin >>= λ c. rest >>= λ cs. ok (c ∷ cs))
    else ok []

-- `(start..bound).step_by(step).map(…)`: the first of each pair is the index at which a chunk
-- begins, the second where it ends. `step_by` panics on zero.
unfoldable pub chunked_range : Build → (step size start bound : ℕ) → Outcome (List (ℕ × ℕ))
unfolding chunk_at chunks_from
chunked_range build step size start bound =
    if step == 0 then panic zero_step else chunks_from build step size bound (bound - start) start
