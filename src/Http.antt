-- ===== src/Http.antt =====
-- The HTTP server: the request parser and the responses of libhttp.c, the file handler of server.c, and
-- the work queue of wq.c with the thread pool of httpserver_pool.c.
pub mod Parse
pub mod Send
pub mod Server
pub mod Pool
pub mod Main
mod Tests
pub mod Forking
