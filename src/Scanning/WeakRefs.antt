-- ===== src/Scanning/WeakRefs.antt =====
-- mmtk/src/scanning.rs: `process_weak_refs`, which mmtk-core calls when the transitive closure is
-- complete.
pub mod Laws
mod Tests
use mmtk_ruby.Base.{Bool, false, List, ◌++◌, Outcome, ok, ◌>>=◌}
use mmtk_ruby.Build.{Build}
use mmtk_ruby.Vm.{Core, RubyUpcalls}
use mmtk_ruby.Packet.{Submission}
use mmtk_ruby.Ppp.{PppRegistry, cleanup_ppps}
use mmtk_ruby.Weak.Tables.{ChunkSizes, TableWork, process_weak_stuff}

-- The registry, what is submitted, the counters that the packets of the two weak tables share, and
-- the result.
pub process_weak_refs :
    {W : Type 0}
    → Build
    → RubyUpcalls W
    → ChunkSizes
    → Core W
    → PppRegistry
    → W
    → Outcome (PppRegistry × List Submission × (TableWork × TableWork) × Bool)
process_weak_refs build up sizes core registry w = do
  weak ← process_weak_stuff build up sizes core w
  ppps ← cleanup_ppps build core registry w
  ok (ppps.0, weak.0 ++ ppps.1, (weak.1, weak.2), false)
