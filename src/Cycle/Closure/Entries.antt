-- ===== src/Cycle/Closure/Entries.antt =====
-- mmtk/src/weak_proc.rs: the packets of the two weak tables among the others.
use mmtk_ruby.Base.{
  ℕ, ◌<◌, ◌^◌, ◌≡◌, refl, sym, ap, ◌∙◌, Bool, true, false, List, [], ◌∷◌, map, length, length-map,
  ok, arith,
}
use mmtk_ruby.Base.HashSet.{HashSet}
use mmtk_ruby.Build.{Build}
use mmtk_ruby.Stage.{vm_ref_closure}
use mmtk_ruby.Vm.{Address, ObjectReference, Core, RubyUpcalls}
use mmtk_ruby.Givtbl.{MovedGivtbl}
use mmtk_ruby.Packet.{Packet, UpdateTableEntriesParallel}
use mmtk_ruby.Utils.AfterAll.{AfterAll, new, add_packets, count_up}
use mmtk_ruby.Utils.AfterAll.Safety.{prepared}
use mmtk_ruby.Weak.Parallel.{run_entries, entries_do_work, entries_updated, run_entries-releases}
use mmtk_ruby.Weak.Ranges.Cover.{covers}
use mmtk_ruby.Weak.Tables.{TableWork, entries_packet}
use mmtk_ruby.Weak.Tables.Laws.{entry_ranges}
use mmtk_ruby.Cycle.Closure.{Closing, counter, set_counter, run_packet, run_packets}

-- The counter of the table of the frozen strings, and that of the global symbols.
abbrev pub number : Bool → ℕ
number true = 0
number false = 1

-- The contents of the packet for a range of entries.
abbrev pub chunk : Address → (keys values forward : Bool) → ℕ → ℕ × ℕ → UpdateTableEntriesParallel
chunk table keys values forward name c = record {
  table = table;
  begin = c.0;
  end = c.1;
  weak_keys = keys;
  weak_values = values;
  forward = forward;
  after_all = name;
}

-- A counter that has released what it kept.
abbrev pub spent : AfterAll Packet
spent = record { counter = 0; stage = vm_ref_closure; packets = [] }

module _ {W : Type 0} (build : Build) (core : Core W) (up : RubyUpcalls W)
    (drain : MovedGivtbl → MovedGivtbl) (order : HashSet → List ObjectReference) where
  run_packets-entries :
      (strings : Bool) (table : Address) (keys values forward : Bool) (cs : List (ℕ × ℕ))
      (s : Closing W)
      → let name = number strings in
        let r =
          run_entries up (map (chunk table keys values forward name) cs) (counter name s) s.vm in
        run_packets build core up drain order
          (map (entries_packet table keys values forward name) cs)
          s
        ≡ ok (r.1, record (set_counter name r.0 s) { vm = r.2 })
  unfolding run_packets run_packet run_entries
  run_packets-entries true table k v f [] s = refl
  run_packets-entries false table k v f [] s = refl
  run_packets-entries true table k v f (c ∷ cs) s =
      let d = entries_do_work up (chunk table k v f 0 c) s.strings s.vm in
      rw (run_packets-entries true table k v f cs (record s { strings = d.after_all; vm = d.vm }))
        refl
  run_packets-entries false table k v f (c ∷ cs) s =
      let d = entries_do_work up (chunk table k v f 1 c) s.symbols s.vm in
      rw (run_packets-entries false table k v f cs (record s { symbols = d.after_all; vm = d.vm }))
        refl

  -- A table of which some entry is in a packet.
  pub run_packets-table :
      (strings : Bool) (table : Address) (keys values forward : Bool) (t : TableWork) (i : ℕ)
      (s : Closing W)
      → t.entries_packets
        ≡ map
            (entries_packet table keys values forward (number strings))
            (entry_ranges t.entries_packets)
      → covers i (entry_ranges t.entries_packets) ≡ 1
      → t.after_all ≡ prepared vm_ref_closure (length t.entries_packets) t.after_all.packets
      → length t.entries_packets < 2 ^ 64
      → counter (number strings) s ≡ t.after_all
      → (w' : W) × (run_packets build core up drain order t.entries_packets s
          ≡ ok (t.after_all.packets, record (set_counter (number strings) spent s) { vm = w' }))
  unfolding prepared new add_packets count_up
  run_packets-table strings table k v f t i s flags once ready short held =
      by_ranges (entry_ranges t.entries_packets) flags once
    where
      by_ranges :
          (cs : List (ℕ × ℕ))
          → t.entries_packets ≡ map (entries_packet table k v f (number strings)) cs
          → covers i cs ≡ 1
          → (w' : W) × (run_packets build core up drain order t.entries_packets s
              ≡ ok (t.after_all.packets, record (set_counter (number strings) spent s) { vm = w' }))
      by_ranges [] e h = absurd (omega arith)
      by_ranges (c ∷ cs) e h =
          let name = number strings in
          let one = chunk table k v f name in
          let n : length t.entries_packets ≡ length (map one (c ∷ cs)) =
            ap length e
            ∙ length-map (entries_packet table k v f name) (c ∷ cs)
            ∙ sym (length-map one (c ∷ cs)) in
          let bounded : length (map one (c ∷ cs)) < 2 ^ 64 = rw (← n) short in
          let count : t.after_all.counter ≡ length (map one (c ∷ cs)) =
            ap (λ a. a.counter) ready ∙ (omega arith) ∙ n in
          let w' = entries_updated up (map one (c ∷ cs)) s.vm in
          let ran : run_entries up (map one (c ∷ cs)) (counter name s) s.vm
              ≡ (spent, t.after_all.packets, w') =
            ap (λ a. run_entries up (map one (c ∷ cs)) a s.vm) held
            ∙ run_entries-releases up (one c) (map one cs) t.after_all s.vm bounded count
            ∙ ap (λ st. (record { counter = 0; stage = st; packets = [] }, t.after_all.packets, w'))
                (ap (λ a. a.stage) ready) in
          (
            w',
            ap (λ ps. run_packets build core up drain order ps s) e
                ∙ run_packets-entries strings table k v f (c ∷ cs) s
                ∙ ap (λ r. ok (r.1, record (set_counter name r.0 s) { vm = r.2 })) ran,
          )
