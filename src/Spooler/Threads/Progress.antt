-- ===== src/Spooler/Threads/Progress.antt =====
-- The variants with condition variables do not come to a stop while strings are to be inserted. With two:
-- who waits for a string or for a slot is outweighed by those that come or signal (Stuck). With one: who
-- has made its signal leaves another thread that can go on (Passing, Relay).
mod Count
mod Waits
mod Steps
mod Wakes
mod Signals
mod Moving
pub mod Owner
pub mod Passing
pub mod Relay
pub mod Stuck
unfoldable pub use Count.*
pub use Waits.*
pub use Steps.*
pub use Wakes.*
pub use Signals.*
pub use Moving.*
