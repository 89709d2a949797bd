-- ===== src/Cycle/Tables.antt =====
-- mmtk/src/weak_proc.rs and utils.rs: the packets of one weak table, from their submission to the
-- release of the packets for the bins.
use mathlib.Core.List.{Permᴰ}
use mmtk_ruby.Base.{
  ℕ, ◌+◌, ◌-◌, ◌≤◌, ◌<◌, ◌^◌, ◌≡◌, refl, sym, ap, ◌∙◌, Bool, List, [], ◌∷◌, map, length, length-map,
  length-perm, ltb, if◌then◌else◌, ok, arith, subst, ok-injective,
}
use mmtk_ruby.Build.{Build}
use mmtk_ruby.Stage.{vm_ref_closure}
use mmtk_ruby.Vm.{Address, RubyUpcalls}
use mmtk_ruby.Packet.{Packet, UpdateTableEntriesParallel, update_table_entries}
use mmtk_ruby.Utils.AfterAll.{new, add_packets, count_up}
use mmtk_ruby.Utils.AfterAll.Safety.{prepared}
use mmtk_ruby.Weak.Ranges.Cover.{covers, in_range}
use mmtk_ruby.Weak.Tables.{ChunkSizes, TableWork, process_weak_table_chunked}
use mmtk_ruby.Weak.Tables.Laws.{entry_ranges, bin_ranges, table_chunks}
use mmtk_ruby.Weak.Parallel.{run_entries, entries_updated, run_entries-releases}

-- How often the packets have entry `i` updated.
abbrev pub updates : ℕ → List Packet → ℕ
updates i ps = covers i (entry_ranges ps)

updates-cons :
    (i : ℕ) (p : Packet) (ps : List Packet) → updates i (p ∷ ps) ≡ updates i (p ∷ []) + updates i ps
updates-cons i (update_table_entries p) ps = omega arith
updates-cons i _ ps = omega arith

updates-perm : (i : ℕ) {ps qs : List Packet} → Permᴰ ps qs → updates i ps ≡ updates i qs
updates-perm i Permᴰ.nil = refl
updates-perm i (Permᴰ.cons {a} {b} {l₁} {l₂} e h) =
    updates-cons i a l₁
    ∙ ap (λ x. updates i (x ∷ []) + updates i l₁) e
    ∙ ap (λ n. updates i (b ∷ []) + n) (updates-perm i h)
    ∙ sym (updates-cons i b l₂)
updates-perm i (Permᴰ.swap {a} {b} {a'} {b'} {l} e f) =
    let one = updates-cons i a (b ∷ l) ∙ ap (λ n. updates i (a ∷ []) + n) (updates-cons i b l) in
    let two =
      updates-cons i a' (b' ∷ l) ∙ ap (λ n. updates i (a' ∷ []) + n) (updates-cons i b' l) in
    let ea = ap (λ x. updates i (x ∷ [])) e in
    let eb = ap (λ x. updates i (x ∷ [])) f in one ∙ (omega arith) ∙ sym two
updates-perm i (Permᴰ.trans h k) = updates-perm i h ∙ updates-perm i k

length-zero : {A : Type 0} (xs : List A) → length xs ≤ 0 → xs ≡ []
length-zero [] h = refl
length-zero (x ∷ xs) h = absurd (omega arith)

module _ {W : Type 0} (build : Build) (up : RubyUpcalls W) (sizes : ChunkSizes) where
  -- If the chunk size of the entries is positive, that of the bins is no smaller, nothing overflows,
  -- and the call for a table has submitted a packet at least: when these packets run, in any order
  -- and from any state of CRuby, the packets that were kept for the end are released exactly once,
  -- after the last, and the counter is then zero and keeps nothing. Each entry from `entries_start` to
  -- `entries_bound` has been updated by exactly one packet and no other entry by any, and every bin is
  -- in one of the released packets at least.
  pub table_stage_complete :
      (name : ℕ) (table : Address) (weak_keys weak_values forward : Bool) (w w' : W) (i : ℕ)
      (t : TableWork) (q : UpdateTableEntriesParallel) (qs : List UpdateTableEntriesParallel)
      → 0 < sizes.entries
      → sizes.entries ≤ sizes.bins
      → (up.st_get_size_info table w).1 + sizes.entries ≤ 2 ^ 64
      → (up.st_get_size_info table w).2 + sizes.bins ≤ 2 ^ 64
      → process_weak_table_chunked build up sizes name table weak_keys weak_values forward w ≡ ok t
      → Permᴰ (map update_table_entries (q ∷ qs)) t.entries_packets
      → (run_entries up (q ∷ qs) t.after_all w' ≡ (
        record { counter = 0; stage = vm_ref_closure; packets = [] },
        t.after_all.packets,
        entries_updated up (q ∷ qs) w',
      ))
        × (updates i (map update_table_entries (q ∷ qs)) ≡ (
            if in_range (up.st_get_size_info table w).0 (up.st_get_size_info table w).1 i
            then 1
            else 0))
        × ((if ltb i (up.st_get_size_info table w).2 then 1 else 0)
            ≤ covers i (bin_ranges t.after_all.packets))
  unfolding prepared new add_packets count_up
  table_stage_complete name table k v f w w' i t q qs p e h h' et perm =
      let (t', et', once, least, ready, short, _) =
        table_chunks build up sizes name table k v f w i p e h h' in
      let same : t' ≡ t = ok-injective (sym et' ∙ et) in
      let n : length t.entries_packets ≡ length (q ∷ qs) =
        sym (length-perm perm) ∙ length-map update_table_entries (q ∷ qs) in
      let ready' : t.after_all
          ≡ prepared vm_ref_closure (length t.entries_packets) t.after_all.packets =
        subst
          (λ x.
            x.after_all ≡ prepared vm_ref_closure (length x.entries_packets) x.after_all.packets)
          same ready in
      let short' : length t.entries_packets
          ≤ (up.st_get_size_info table w).1 - (up.st_get_size_info table w).0 =
        rw (← same) short in
      let bounded : length (q ∷ qs) < 2 ^ 64 = rw (← n) (omega arith) in
      let counter : t.after_all.counter ≡ length t.entries_packets =
        ap (λ a. a.counter) ready' ∙ omega arith in
      (
        run_entries-releases up q qs t.after_all w' bounded (counter ∙ n)
            ∙ ap
                (λ st. (
                  record { counter = 0; stage = st; packets = [] },
                  t.after_all.packets,
                  entries_updated up (q ∷ qs) w',
                ))
                (ap (λ a. a.stage) ready'),
        updates-perm i perm ∙ rw (← same) once,
        rw (← same) least,
      )

  -- If the chunk size of the entries is positive, that of the bins is no smaller, nothing overflows,
  -- and the table has no entries between `entries_start` and `entries_bound`: no packet is submitted,
  -- so nothing counts down, and the packets that cover the bins stay in the `AfterAll`.
  pub empty_table-keeps_bins :
      (name : ℕ) (table : Address) (weak_keys weak_values forward : Bool) (w : W) (i : ℕ)
      → 0 < sizes.entries
      → sizes.entries ≤ sizes.bins
      → (up.st_get_size_info table w).1 + sizes.entries ≤ 2 ^ 64
      → (up.st_get_size_info table w).2 + sizes.bins ≤ 2 ^ 64
      → (up.st_get_size_info table w).1 ≤ (up.st_get_size_info table w).0
      → (t : TableWork) × (process_weak_table_chunked build up sizes name table weak_keys
            weak_values forward w
          ≡ ok t)
        × (t.entries_packets ≡ [])
        × (t.after_all.counter ≡ 0)
        × ((if ltb i (up.st_get_size_info table w).2 then 1 else 0)
            ≤ covers i (bin_ranges t.after_all.packets))
  unfolding prepared new add_packets count_up
  empty_table-keeps_bins name table k v f w i p e h h' empty =
      let (t, et, once, least, ready, short, _) =
        table_chunks build up sizes name table k v f w i p e h h' in
      let none : t.entries_packets ≡ [] = length-zero t.entries_packets (omega arith) in
      (t, et, none, ap (λ a. a.counter) ready ∙ rw none (omega arith), least)
