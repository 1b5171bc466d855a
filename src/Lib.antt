-- ===== src/Lib.antt =====
-- A model of handystats, a library that collects statistics of a running program, with the theorems
-- that make it correct.
--
-- The program. Measuring points in any thread create event messages and push them to one queue. The
-- thread of the core pops them and hands each to the metric of its name, which is made at its first
-- message. A metric (gauge, counter, timer or attribute) keeps its values in `statistics`: totals,
-- data of a moving interval, and a histogram with a bounded number of bins. Times are time points of
-- the time stamp counter; durations carry their unit.
--
-- The files.
--   Prelude          integers, lists and tests over native numbers; the conversions between
--                    `int64_t` and `uint64_t`
--   Machine          floating-point numbers and the clock's calibration, as a parameter of the model;
--                    Machine/Laws has the laws of the order that some theorems ask for, and
--                    Machine/Milli is a machine of fixed-point numbers on which the model runs
--   MathUtils        include/handystats/math_utils.hpp, and `find_z` of src/statistics.cpp
--   Chrono           include/handystats/chrono.hpp and src/chrono.cpp: Duration and TimePoint. Clock has
--                    src/chrono/tsc_clock.cpp, src/chrono/system_clock.cpp and src/cpuid_impl.hpp; in
--                    it Calibration measures the frequency of the counter, and Offset is how
--                    `to_system_time` renews the offset between the clocks
--   Statistics       src/statistics.cpp: Tag (sets of tags), State (`reset`), Window (the moving
--                    interval), Histogram, Update (`update`, `update_time`), Access (`get_impl`),
--                    Quantile (`quantile_extractor::at`) and Interface (the getters)
--   MessageQueue     src/message_queue.cpp: Nodes has `push` and `pop` on an explicit memory and
--                    their parts; Interleaving lets any producers and the consumer run step by step;
--                    Service has the functions around the queue, with its size and its statistics
--   Metrics          src/metrics/: Attribute, Gauge, Counter and Timer
--   Events           src/events/: the creation of messages, their processing by a metric, and
--                    Release, which messages are deleted
--   Internal         src/internal.cpp: the map of metrics and the processing of a message
--   MetricsDump      src/metrics_dump.cpp: when a dump is made and what it holds
--   Core             src/core.cpp: the turns of the processor, the start and the end of the library
--   JsonDump         src/json_dump.cpp and src/json/: the metrics of a dump as a JSON value
--   MeasuringPoints  src/measuring_points/: the calls by which a program reports, with CFunctions,
--                    the C functions there; Proxy and Scope have the proxies and the helpers for
--                    scopes of include/handystats/measuring_points/
--   System           measuring points, turns of the processor and restarts, in any order
--   Config           src/config.cpp and src/config/: Pattern (the patterns of names), Options (how a
--                    value changes the options of a metric), Json (`config_json`) and
--                    File (`config_file`)
--   Tests            runs on concrete inputs
--
-- How the model corresponds to the code. An object is a record of its fields and a method is a
-- function to the new record. `none` stands for an exception or for a read out of bounds. An
-- `int64_t` is an integer; its wrap-around is written out where the code converts to `uint64_t`, and
-- elsewhere signed overflow is undefined in C++ and left out. A `size_t` counter wraps at 2 ^ 64.
-- The loop of `remove_empty_bins` runs on fuel, one more than the number of bins, which is enough
-- since every round moves the index or erases a bin: this is a part of `remove_empty_bins_lem`.
-- `expand_pattern` runs on fuel, twice the length of the text and one more, and the loop of the
-- queue's `finalize` on fuel that is an argument; theorems of the list below say how much is enough.
-- All other loops are recursions on lists. The processor's thread is the sequence of its turns, one
-- for each element of a list of clock reads.
--
-- A `std::map` is an association list in the order of its insertions or, for the instances of a timer,
-- a function, so that the loop that erases instances is a function on each of them; the loop's order
-- has no effect there. `std::lower_bound` is the insertion before the first bin that is not less,
-- which is the same on bins in order. An exception ends a function without a state: what the code has
-- changed before it throws is not modelled, as in `config_json` at an unknown tag.
--
-- How the parts interact. A measuring point makes a message at an address of the queue's memory and
-- pushes it (MeasuringPoints, MessageQueue/Service). A turn of the processor pops it, hands it to
-- Internal, releases it, and lets MetricsDump renew the dump (Core). `Steady` of Core/Steady is the
-- invariant of the whole: the library is enabled, the queue holds allocated messages, each name has
-- one kind of metric and of messages, no metric keeps a histogram, and the dump can be written.
-- `Reach` of System has the states that the library comes to when these parts run in any order, provided that
-- the messages of a name are of one kind of metric, which the code does not check (Internal/Mismatch
-- has what happens otherwise).
--
-- Parameters. The library rapidjson is the record `Rapidjson` of Config/Options, with the reads that
-- the code makes of parsed values, and the record `Document` of JsonDump, with the values that it
-- builds; `KeepsMembers` of JsonDump/Fields is what the theorems ask of the latter. `fnmatch` and the
-- logarithm of the C library are function arguments. What the instructions that read the time stamp
-- counter, `clock_gettime`, `cpuid` and the environment give are arguments too (Chrono/Clock).
--
-- Not modelled: the opening of a configuration file, the functions of src/json/ that write a single
-- object to a text, the macros around the measuring points, the sleep in the calibration, the mutexes
-- and the start of the processor's thread, and weak memory orders: the queue's atomic operations are
-- taken as sequentially consistent steps. The wait of `get_simultaneous_pair` for close reads has no
-- bound in the code; its rounds are a list here.
pub mod Prelude
pub mod Machine
pub mod MathUtils
pub mod Chrono
pub mod Config
pub mod Statistics
pub mod System
pub mod MessageQueue
pub mod Metrics
pub mod Events
pub mod Internal
pub mod JsonDump
pub mod MetricsDump
pub mod Core
pub mod MeasuringPoints
pub mod Tests
