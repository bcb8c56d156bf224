-- ===== src/Vector.antt =====
-- `LoggerVector` of logger/src/ldlogger-util.h and ldlogger-util.c: `Memory` has the operations on the
-- block of pointers, and `Spec` those on the list of items, which the parsers use. `Holds`, `Found`,
-- `Erased` and `Joined` are about the two, and `Front` is about a position that no caller gives.
pub mod Spec
pub mod Items
pub mod Memory
pub mod Holds
pub mod Found
pub mod Erased
pub mod Front
pub mod Joined
