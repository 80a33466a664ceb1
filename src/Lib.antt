-- ===== src/Lib.antt =====
-- papper: an asynchronous logging library in C++, under include/papper. A thread that logs writes
-- a binary event into a queue of its own; a backend thread reads the events of all threads, formats
-- them with the current pattern and writes the lines to the current sink.
--
-- The parts and the files:
-- Queue and Queue/*: `Queue` of include/papper/detail/queue.h, the byte ring between a thread and the
--   backend. A pointer into the buffer is an index, and nullptr is `none`. All positions are 64-bit
--   numbers that wrap around (`add64`, `sub64`). Queue/Ring is the memory, Queue/Invariant what a
--   queue stands for, Queue/Producer and Queue/Consumer the two ends, Queue/Exact and Queue/Sequential
--   the answers when a load shows the newest store. Queue/Spsc has the two threads as a step relation:
--   `w_log` and `r_log` are the stores that the other thread has not loaded, and an acquire load
--   returns the last value loaded or any later one. What a message is and how its size is read off its
--   bytes is the parameter `Framing`.
-- Codec and Codec/*: `Codec` of include/papper/detail/codec.h, for trivially copyable types and for
--   strings. A value is the bytes of its representation, a string the bytes of its code units.
-- Event and Event/*: `LogEventHeader` and `push_log_event` of include/papper/detail/core.h. An event
--   is a header of four words and the arguments; Event/Protocol fills the parameter of Queue/Spsc with
--   log events, and Event/Accept says when an event is kept.
-- Level: `LogLevel` of include/papper/detail/level.h.
-- Pattern and Pattern/*: include/papper/detail/pattern.h. Pattern/Parse is `parse_pattern`, which the
--   compiler runs; Pattern/Names and Pattern/Grammar say, apart from the code's tables and loops,
--   which names and patterns there are and what they mean. Pattern/Format is what a formatter does
--   with an event, with the static variables of `process_time_arg` as explicit state;
--   Pattern/Lines says which lines it makes; Pattern/Slots and Pattern/Suits read a format
--   string as fmt does, and compare its replacement fields with the arguments. fmt is a parameter:
--   `hms` for a whole second, `vformat` for a format string and its arguments.
-- Sink and Sink/*: `SinkHandler` of include/papper/detail/sink.h. Calls of the C library are effects.
-- Formatters and Formatters/*: `PatternFormatterHandler` of include/papper/detail/pattern.h. The
--   deletions are effects.
-- Backend and Backend/*: the list of threads and how a thread enters it, `poll_threads` with
--   `read_and_process_single_event`, the pause between polls and the last loop of the backend thread,
--   in include/papper/detail/core.h. Static data and names are read through the parameters `sites` and
--   `name_at` at their address; `message_of` is fmt on the decoded arguments, `local_time` the clock,
--   `format_line` the current formatter. Backend/Rounds is the abstract view, the threads with the
--   events they have left, and what a round takes of them; Backend/Represents says when a list of
--   nodes stands for it, and Backend/Samples is data for the tests.
-- ThreadList and ThreadList/*: the same list as it lies in memory: `ThreadContextNode`s found by their
--   address, `register_thread` by any threads at once, and `poll_threads` with
--   `remove_and_delete_node`, as a step relation in which each access to the list is one step. A
--   relaxed load of the head may return anything, and a compare-exchange may fail for no reason in
--   `register_thread`; where the one in `remove_and_delete_node` fails, it returns the head as it is.
--   `listed`, `snapshot` and `visited` are the history. ThreadList/Refines views its steps as
--   operations on the list of Backend, and ThreadList/Distance says how far a search has still to go.
-- Concurrent and Concurrent/*: any number of threads and the backend, interleaved at each access to
--   what they share. A thread has a node in ThreadList, a queue with the two ends of Queue/Spsc, and
--   the flag `_is_alive`; `phase` is where the backend is in the body of the loop of `poll_threads`. A
--   thread that registers may write to its queue before its node is in the list. Concurrent/Events is
--   for log events whose static data, the parameter `sites`, names the types of their arguments;
--   Concurrent/Places and Concurrent/Ready say where the backend holds a pointer into a queue, and
--   Concurrent/Work what a poll has left to do. Concurrent/Progress and Concurrent/Polls are about the
--   backend's next step and the end of a poll.
-- MainLoop and MainLoop/*: the construction of `Backend` in include/papper/detail/core.h, a turn of
--   its loop, and its destruction, with sink, formatters, clock and threads together. The formatter at
--   an address is the parameter `format_of`.
-- Program and Program/*: the threads and the backend of include/papper/detail/core.h at work, as a
--   step relation: a thread starts, logs or ends, or the backend polls. Each of these is one
--   uninterrupted step, whose loads show the newest stores, so nothing happens within a poll, between
--   `reserve_read` and the test of `thread_is_alive` for instance. That is in Queue/Spsc, Backend/Race
--   and Concurrent. `logged` is the history of the events that the queues accepted. Program/Batches is
--   what polls take and write.
-- Library and Library/*: all of it from the construction of the backend to its destruction, with the
--   calls that set the sink, the pattern and the level, again as a step relation in which no two calls
--   or turns overlap. Library/Refines views its runs as those of Program.
-- Settings and Settings/*: the setters of include/papper/papper.h. `fopen`, a function of the file's
--   name and the mode, `errno` and the C library's buffering constants are arguments. A pattern that
--   does not compile is `none`; a formatter is an object at an address.
-- Double: what the clock does with a `double`, as a record of operations. The laws that a theorem
--   relies on stand in a record of their own beside it; whole numbers fill both.
-- Cpu and Cpu/*: the functions of include/papper/detail/time.h that ask the processor for its vendor
--   and its model, on x86. The CPUID instruction is the parameter `x86_cpuid`, `brand` a memory of 256
--   bytes, and `none` a write or a read past its end.
-- Tick and Tick/*: the functions of the same file that find the length of a tick, from
--   `extract_tick_time_from_leaf_15h` to `get_tsc_ns_per_tick`. `strtod` and the measured length are
--   parameters; the outer `none` is an access outside of an array, be it a read around the name or a
--   write or read past the end of `brand`, the inner one the answer false.
-- Clock and Clock/*: `Clock` of the same file, and `try_resync_clock` of include/papper/detail/core.h.
--   What is read of the counter, of the system's clock, of localtime and of gmtime are arguments. The
--   sums of nanoseconds of a time stamp wrap around 64 bits; Clock/Monotone says of which stamps they
--   fit.
-- Common and Common/*, Memory, Text: Boolean tests, lists, distinct numbers, 64-bit arithmetic, bit
--   masks, integers, byte memory, and texts as lists of character codes.
--
-- The parts meet as follows. `push_log_event` (Event) encodes (Codec) into a reservation (Queue). The
-- backend (Backend) takes a pointer from `reserve_read`, decodes the header and the arguments, and
-- commits what it read. The line goes through the pattern (Pattern) to the sink (Sink). Between two
-- polls the loop (MainLoop) switches to the sink and the formatter (Formatters) that were queued and
-- resynchronises the clock (Clock), whose length of a tick (Tick) comes from the processor (Cpu).
--
-- Bounds and fuel: queues of up to 2 ^ 62 bytes, since the constructor allocates twice the capacity
-- and computes that size in 64 bits. `bit_ceil` doubles 63 times, which reaches every power of two
-- of a `size_t`. The parser has the length of the pattern as fuel, and each round takes a character.
-- The last loop of the backend has fuel; if each thread has fewer than k events, k + 1 is enough. The
-- search for a blank in the name of the processor goes down from an index. The offset from UTC is
-- computed in exact integers.
--
-- Not modelled: the instructions that read the processor's counter and its CPUID data, and how
-- `measure_tsc_tick` waits; the flag that ends the loop of the backend thread, and starting and
-- joining that thread; the short names of the macros of include/papper/papper.h; and benchmark/,
-- example/ and tests/, which are clients of the library. In the functions of Backend a poll is one
-- step, in which the list and the queues change by the backend's own steps only, except in Backend/Race;
-- Concurrent has the interleavings. The loads of the flag `_is_alive` show its last value, and memory is
-- read as it is: what compilers and processors may do to the plain fields of a node is not modelled.
pub mod Common
pub mod Memory
pub mod Text
pub mod Queue
pub mod Codec
pub mod Level
pub mod Pattern
pub mod Event
pub mod Sink
pub mod Formatters
pub mod Settings
pub mod Double
pub mod Cpu
pub mod Tick
pub mod Clock
pub mod Backend
pub mod ThreadList
pub mod Concurrent
pub mod MainLoop
pub mod Program
pub mod Library
