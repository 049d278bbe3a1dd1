-- ===== src/Shell.antt =====
-- Shell/: the tokenizer, the commands of the shell, and the counter that threads.c measures locks with.
pub mod Tokenizer
pub mod Counter
pub mod Commands
pub mod Signals
pub mod Process
pub mod Session
pub mod Terminal
