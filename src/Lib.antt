-- ===== src/Lib.antt =====
-- The MMTk binding for CRuby: the Rust crate in mmtk/, which stands between mmtk-core and the C code
-- of CRuby. During a collection mmtk-core calls the traits that the crate implements, and runs the
-- work packets that the crate submits; CRuby calls the functions of mmtk/src/api.rs, and is called
-- through the table `RubyUpcalls`.
--
-- CRuby and mmtk-core are parameters. `W` is their state; `RubyUpcalls` (Vm/Upcalls) and `Core`
-- (Vm/Functions) hold the functions of the two that the crate calls. CRuby code that visits objects
-- is a `Script` (Vm/Scripts): it ends, or it visits an object through the object closure of its
-- thread and goes on with the reference that comes back. Vm/Toy is a small instance of both, on which
-- the definitions are evaluated. A Rust function that may panic, or wait for a mutex, returns an
-- `Outcome`; a mutex is its value and its status. What a function adds to a bucket of the scheduler
-- is part of its result. The compile-time switches are the record `Build`.
--
-- The files, and the code that they model:
--   Base, Build, Stage, Packet: shared types and lemmas; the switches, `extra_assert!` and `usize`
--     addition; the names of the two stages; the packets as data. A `HashSet` or a `HashMap` is a
--     list without repetitions, and its order of iteration is an argument.
--   Utils: mmtk/src/utils.rs. Utils/Chunked is `ChunkedVecCollector`; Utils/AfterAll is `AfterAll`,
--     and its Threads is `count_down` as a step relation of many workers, one shared access a step.
--   Abi: mmtk/src/abi.rs. Abi/Closure is `ObjectClosure`, Abi/Tls is `GCThreadTLS`, Abi/RawVec is
--     `RawVecOfObjRef`.
--   Object: mmtk/src/abi.rs, `HiddenHeader` and `RubyObjectAccess`; Object/Copy is `copy` of
--     mmtk/src/object_model.rs over a memory of bytes, Object/Model the rest of that file.
--   Ppp: mmtk/src/ppp.rs, the registry; Ppp/Packets has its three work packets.
--   Weak: mmtk/src/weak_proc.rs. Weak/Ranges and Weak/Tables cut the weak tables into packets,
--     Weak/Parallel runs these; Weak/ObjFree, Weak/WbList and Weak/Processors are the other packets.
--   Scanning: mmtk/src/scanning.rs. Roots scans roots, VmRoots submits the packets that do, Edges
--     traces an object, WeakRefs starts the weak processing, Fixed has the methods that only answer.
--   Binding, Givtbl: mmtk/src/binding.rs. Weak/WbList/View takes the WB-unprotected objects as a
--     set without order. Globals: mmtk/src/lib.rs. Collection:
--     mmtk/src/collection.rs and mmtk/src/active_plan.rs. ReferenceGlue: mmtk/src/reference_glue.rs.
--   Api: mmtk/src/api.rs. Api/Builder has the functions on an `MMTKBuilder`, Api/Passed those that hand
--     a call to mmtk-core (Api/Manager has what they call), and Api/History requests in sequence
--     against an ideal binding.
--   Cycle: what the components do together. Moves goes from the copying of objects to the report of
--     their tables, Tables from the submission of the packets of a weak table to the release of the
--     last, Closure through all packets of the weak processing, Roots from the submission of the
--     packets that scan roots to the work for mmtk-core, Pinning through a whole collection with its
--     PPPs, Repeated through many collections. Closure/Books says what each packet does to the binding
--     when the heap is given, without CRuby; Closure/Refines relates the packets to that.
--
-- Loops are structural, but for `chunks_from` (Weak/Ranges) and `chunks` (Base/Chunks). The first has
-- the length of the range as its fuel, and each step moves on by one at least; the second has the
-- length of the list; the results on both are proved with that fuel. `trailing_zeros` (Api/Passed)
-- goes through the 64 bits of a word.
--
-- Not modelled: logging and probes, but for the numbers that a probe reports where the code computes
-- them; pointers and transmutations, for which the pointed-to value stands; the contents of a raw
-- vector that C holds; and the printing of the panic message. The arithmetic of addresses belongs to
-- mmtk-core: here it wraps around in every build, also where a debug build of mmtk-core would panic.
pub mod Base
pub mod Build
pub mod Vm
pub mod Stage
pub mod Packet
pub mod Utils
pub mod Abi
pub mod Ppp
pub mod Weak
pub mod Scanning
pub mod Givtbl
pub mod Object
pub mod Binding
pub mod Globals
pub mod Collection
pub mod Api
pub mod Cycle
pub mod ReferenceGlue
