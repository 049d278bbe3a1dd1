-- ===== src/Spooler.antt =====
-- The spooler of Spooler/: a ring buffer of strings (spooler_shared.c), the four variants of
-- insertion and removal over it (spooler_unsafe.c, spooler_safe.c, spooler_one_cv.c and
-- spooler_two_cv.c), and the driver that starts producers and consumers.
pub mod Queue
pub mod Ring
pub mod Threads
pub mod Driver
