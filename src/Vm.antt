-- ===== src/Vm.antt =====
-- What the binding shares with mmtk-core and with CRuby, neither of which is modelled: object
-- references, the functions of mmtk-core that the binding calls (`Core`), and the functions that
-- CRuby hands over (mmtk/src/abi.rs, `RubyUpcalls`). `W` is their state, of any type.
mod Scripts
mod Functions
mod Upcalls
pub mod Toy
pub use Scripts.*
pub use Functions.*
pub use Upcalls.*
