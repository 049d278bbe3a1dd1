-- ===== src/Http/Pool.antt =====
-- The work queue of wq.c and the thread pool of httpserver_pool.c: the thread that accepts the
-- connections, and the workers.
pub mod Queue
pub mod Workers
pub mod Served
