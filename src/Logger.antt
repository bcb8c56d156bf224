-- ===== src/Logger.antt =====
-- logger/src/ldlogger-logger.c: the compile commands are appended to the log, a JSON array.
pub mod Command
pub mod Stream
pub mod Session
pub mod Log
pub mod Append
pub mod Overflow
pub mod Locking
pub mod Concurrent
pub mod Steps
pub mod Serial
pub mod Growth
