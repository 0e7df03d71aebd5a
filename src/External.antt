-- ===== src/External.antt =====
-- What the program calls and does not implement: the protobuf messages of meshtastic-go as records
-- of the fields that the program uses, and the libraries as records of operations.
mod Pb
mod Calls
pub use Pb.*
pub use Calls.*
