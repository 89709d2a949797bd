-- ===== src/Weak/Parallel.antt =====
-- mmtk/src/weak_proc.rs: the packets that update one chunk of the entries of a table, or one of its
-- bins.
use mathlib.Core.List.{append-nil}
use mmtk_ruby.Base.{
  ℕ, suc, ◌<◌, ◌^◌, ◌≡◌, refl, arith, List, [], ◌∷◌, ◌++◌, length, if◌then◌else◌, Option, none,
  some,
}
use mmtk_ruby.Vm.{RubyUpcalls}
use mmtk_ruby.Packet.{Packet, UpdateTableEntriesParallel, UpdateTableBinsParallel}
use mmtk_ruby.Utils.AfterAll.{AfterAll, count_down, count_down_last, count_down_more}

-- What a packet for entries leaves: the counter, the packets that `count_down` adds to the bucket,
-- the number that the last packet reads for its probe, and the state.
pub record EntriesDone (W : Type 0) : Type 0 where
  pub after_all : AfterAll Packet
  pub released : List Packet
  pub num_entries : Option ℕ
  pub vm : W

module _ {W : Type 0} (up : RubyUpcalls W) where
  -- `UpdateTableEntriesParallel::do_work`
  unfoldable pub entries_do_work : UpdateTableEntriesParallel → AfterAll Packet → W → EntriesDone W
  entries_do_work p after_all w =
      let r =
        up.st_update_entries_range p.table p.begin p.end p.weak_keys p.weak_values p.forward w in
      let c = count_down after_all in
      record {
        after_all = c.0;
        released = c.1;
        num_entries = if c.2 then some (up.st_get_num_entries p.table r.1) else none;
        vm = r.1;
      }

  -- `UpdateTableBinsParallel::do_work`
  unfoldable pub bins_do_work : UpdateTableBinsParallel → W → W
  bins_do_work p w = (up.st_update_bins_range p.table p.begin p.end w).1

  -- The packets in turn: the counter, all that is released, and the state.
  unfoldable pub run_entries :
      List UpdateTableEntriesParallel → AfterAll Packet → W → AfterAll Packet × List Packet × W
  run_entries [] after_all w = (after_all, [], w)
  run_entries (p ∷ ps) after_all w =
      let d = entries_do_work p after_all w in
      let r = run_entries ps d.after_all d.vm in (r.0, d.released ++ r.1, r.2)

  -- The entries updated in turn, and nothing else.
  abbrev pub entries_updated : List UpdateTableEntriesParallel → W → W
  entries_updated [] w = w
  entries_updated (p ∷ ps) w =
      entries_updated ps
        (up.st_update_entries_range p.table p.begin p.end p.weak_keys p.weak_values p.forward w).1

  -- With the counter at the number of packets and at least one packet: when they have all run, one
  -- after another, every chunk of entries has been updated once, and the packets that were kept for
  -- the end have been released exactly once, by the last; the counter is zero and keeps nothing.
  pub run_entries-releases :
      (p : UpdateTableEntriesParallel) (ps : List UpdateTableEntriesParallel)
      (after_all : AfterAll Packet) (w : W)
      → length (p ∷ ps) < 2 ^ 64
      → after_all.counter ≡ length (p ∷ ps)
      → run_entries (p ∷ ps) after_all w ≡ (
        record { counter = 0; stage = after_all.stage; packets = [] },
        after_all.packets,
        entries_updated (p ∷ ps) w,
      )
  unfolding run_entries entries_do_work
  run_entries-releases p [] after_all w h e =
      rw (count_down_last after_all e, append-nil after_all.packets) refl
  run_entries-releases p (q ∷ ps) after_all w h e = rw (count_down_more after_all (length ps) e h) (
      run_entries-releases q ps
        (record { counter = suc (length ps); stage = after_all.stage; packets = after_all.packets })
        (up.st_update_entries_range p.table p.begin p.end p.weak_keys p.weak_values p.forward w).1
        (omega arith) refl)
