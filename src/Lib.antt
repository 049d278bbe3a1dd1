-- ===== src/Lib.antt =====
-- A verification library for the programs of this repository: the print spooler (Spooler/), the word
-- count (Lists,_Threads,_and_Processes/), the shell and its tokenizer (Shell/) and the HTTP server
-- (HTTP_Server/). The programs share no code; each has a directory of modules here.
--
-- Prelude and CLib
--   Prelude passes on the library names and has the Boolean tests on the native numbers, lists measured
--   by them, and tables with one entry replaced. CLib is what the sources use of the C library:
--   strings as lists of codes before the NUL, strcmp, ctype.h in the "C" locale, decimal numbers.
--
-- Spooler
--   Ring is spooler_shared.c and spooler_unsafe.c: the record Spool is spool_t, and each function has
--   the name it has in C. The option in the result of spool_insert_unchecked is the string that the call
--   frees. Queue is the abstract bounded queue; Ring/Bounds has the representation invariant, Ring/Fifo
--   the relation to the queue. Sizes are below 2^63, so that no index wraps.
--   Threads is spooler_safe.c, spooler_one_cv.c and spooler_two_cv.c under producer.c, consumer.c and
--   run_threads of main.c. Threads/Thread has the places where a thread can stand (Pc) and its own steps
--   (Move); Threads/System adds pthread_cond_signal, pthread_cond_broadcast, spurious wake-ups and the
--   main thread. A test under the lock and the call behind it are one step; every other pthread call is
--   one. Threads/Invariant is the invariant, Threads/Safety what follows from it, and
--   Threads/LostWakeup a run. Threads/Progress weighs the threads that wait on a condition against those
--   that will signal it or come to the lock, Threads/OneCv follows who can go on behind each signal where
--   there is one condition, Threads/Strings weighs the strings that are left to insert.
--   Ring/Overwrite is the insertion into a full ring, which only the unsafe calls can make. Driver is the
--   command line of main.c and main_killed.c, the threads that run_threads creates, and the strings of
--   producer.c; Driver/Delivered follows the strings from the command line to the consumers, and
--   Driver/Killed is the end of main_killed.c, which does not wait for its consumers.
--
-- WordCount
--   Table is word_count.c, with the orders of word_helpers.c: a list of WordCount in the order of the
--   next pointers, a pointer to an entry being its position. An int is its bit pattern below 2^32, and
--   its addition wraps, as it does on the machines the program is built for. Stream is get_word and
--   count_words of word_helpers.c over the bytes of a stream; the fuel of count_loop is one more than
--   the length of the stream, and each word takes a byte. Print is fprint_words, Program is words.c.
--   Which calls of malloc and realloc give memory is a parameter, by the number of the call.
--   Table/Unique and Table/Tally say that lists in order with the same counts are the same list, which is
--   how the three programs are compared.
--   Pintos is word_count_l.c and word_count_p.c over an interface (PintosList) for the lists of list.c;
--   Pintos/Count is count_words over them. Pintos/Threads takes whole calls of add_word as steps.
--   Pwords is pwords.c with the pthread calls, the search of the list and its change as single steps
--   (advance for a thread, main_step for the main thread): Inv is the invariant, Fates, Main and Steps
--   say what a step does, Same and Ends have the results. Merge is merge_counts of fwords.c, whose fuel
--   is one more than the length of the stream, of which each line takes a character; on a pipe whose
--   writing end stays open it waits as soon as fscanf asks for a character that will not come
--   (line_asks, merge_open). Forks is the rest
--   of fwords.c: what pipe, fork and fdopen answer is a parameter (Kernel), a descriptor of the parent
--   stands for an end of a pipe, and the bytes of a child's pipe are those that the child has written
--   when it ends; the parent's own requests for memory are granted.
--
-- Shell
--   Tokenizer is tokenizer.c: one function for what a character calls for (action), one that does it
--   (perform), and the loop (lex). Rounds has the lemmas on one round, Bounds, Plain and Quote the
--   results. Commands is shell.c: the table of commands, get_cmd (Path) and the loop over the tokens
--   of a line (Redirect). Signals is ignore_signal and accept_signal; Process is cmd_pwd and the calls
--   that the shell and its child make for a command; Terminal says what init_shell and those calls do to
--   the process groups and the terminal, each call of either process being a step, and so is the end of
--   the child, of which nothing is left since the shell ignores SIGCHLD; what the program itself does to
--   the terminal is left out. Session is the loop over the lines. Counter is
--   threads.c, a step relation in which the test of the loop is made without the lock, where a read of
--   the count is taken to be one step; Counter/Report is its command line and its fairness figures.
--
-- Http
--   Parse is http_request_parse of libhttp.c over the bytes of one call of read; Send is the rest of
--   libhttp.c. Server is serve_file, serve_directory and handle_files_request of server.c; the file
--   system (Files), the socket (write) and the allocator (grant) are parameters, and the names that were
--   handed to stat, fopen and opendir are part of the answer. The fuel of http_send_data is the length
--   of the data, since each call of write takes a byte or fails. Pool/Queue is wq.c over an interface
--   for the macros of utlist.h, and Pool/Workers the threads of httpserver_pool.c as a step relation.
--   Main is the command line and the accept loop of server.c, with the dispatchers of
--   httpserver_basic.c, httpserver_process.c and httpserver_thread.c. Forking is the accept loop with
--   httpserver_process.c as a step relation, with the children, the zombies and the open sockets; its
--   Reach limits the children that run at a time.
--
-- Not modelled: the terminal modes of the shell, cmd_cd, the copies of the
-- Pintos lists and of utlist.h, the tests and demonstrations, and whatever only prints or frees memory.
pub mod Prelude
pub mod CLib
pub mod Spooler
pub mod WordCount
pub mod Shell
pub mod Http
