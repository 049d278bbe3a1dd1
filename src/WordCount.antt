-- ===== src/WordCount.antt =====
-- The word count of Lists,_Threads,_and_Processes/: lists of words with their counts (word_count.c),
-- the words of a stream (word_helpers.c), and the programs over them.
pub mod Table
pub mod Stream
pub mod Print
pub mod Program
pub mod Pintos
pub mod Merge
pub mod Forks
pub mod Pwords
mod Tests
