-- ===== src/Spooler/Threads.antt =====
-- Spooler/spooler_safe.c, spooler_one_cv.c and spooler_two_cv.c under the driver of Spooler/main.c:
-- producers, consumers and the main thread over one spool, interleaved in any order.
pub mod Thread
pub mod System
pub mod Invariant
pub mod Safety
pub mod Progress
pub mod Strings
pub mod OneCv
pub mod LostWakeup
mod Tests
