-- ===== src/Lib.antt =====
-- A model of ptraf, a monitor of the traffic of the sockets of a machine.
--
-- Probes in the kernel (ptraf-ebpf) see each send and each receive and send an event to the user
-- program. A task for each processor reads the events (ptraf/src/probe.rs) and puts them as a batch
-- into the store (ptraf/src/store.rs), a deque of segments of one time window each, which counts
-- bytes and packets by interest. The user interface (ptraf/src/ui.rs and ptraf/src/ui) collects a
-- table of sockets and a graph from the store, filtered by the process or address of the view and
-- by a filter that the user writes in the language of ptraf-filter.
--
-- The files:
--   * Shared: Boolean tests, lists measured by native numbers, `i32` integers, results and
--     outcomes, texts and parsers on them. Std: byte order, IP addresses and their parsing, as the
--     standard library of Rust documents them.
--   * Common: ptraf-common/src/types.rs. `SockMsgEvent` is a record; `IpAddr` is `BpfIpAddr`, and
--     its constructors `v4` and `v6` are `ip_v4` and `ip_v6`; a conversion is `std_ip` or `from_..`.
--   * Clock: ptraf/src/clock.rs. A timestamp is its nanoseconds; a panic is `none`.
--   * Filter: ptraf-filter. Filter/Grammar is the PEG grammar of frontend.rs, as parsers with the
--     grammar's ordered choice; Filter/Interpretor is the interpreter of interpretor.rs. Filter/Syntax
--     describes the language by trees of phrases, with the text and the meaning of each.
--   * Store: ptraf/src/store.rs. Store/Traffic, Store/Socket and Store/Segment are what a segment
--     counts and keeps, Store/Series is `Store` for one caller, Store/Writers several tasks that
--     store batches or view the segments at once, as a relation of steps. Store/Dash is the interface of the concurrent map
--     and set of `dashmap`, with the laws of its documentation and an instance of them.
--   * Start: the options of ptraf/src/main.rs and the store that they give.
--   * Events: `EventIter` of ptraf/src/probe.rs, and in Events/Reading the tasks of
--     `ProbeProgram::events`, given the answers of the kernel. Loading: `ProbeProgram::load` of the
--     same file, with the aya crate as a parameter that performs operations. Promise:
--     ptraf/src/promise.rs, with the channel of a spawned task as a parameter that keeps its value.
--   * Probe: ptraf-ebpf/src/ptraf-ebpf.rs. The memory of the kernel, the context of a probe and the
--     BPF hash map are parameters; the map has the laws of a map, an insertion may fail, and the
--     slot of a removed entry may be taken by the next insertion. A return probe makes two steps,
--     the removal of its entry and then the reading of the slot.
--   * Ui: the user interface. Ui/App is the state machine of ui.rs, Ui/FilterEditor is
--     filter_editor.rs, Ui/SocketTable and Ui/SocketTableView are socktable.rs, Ui/Sparkline is
--     traffic_sparkline.rs, Ui/ProcessDetails is process_details.rs, with procfs as a parameter, and
--     Ui/RemoteIpDetails is remote_ip_details.rs, with the resolver as one.
--     Ui/Drawing is what a drawing does to the state and the store, the widgets left out; what it
--     shows is in Ui/SocketTableView/Cells, the texts of the rows, in Ui/Sparkline/Graph, the columns of
--     the graph, in Ui/Format, in Ui/Captions, the footer and the panels, and in
--     Ui/FilterEditor/Title, the title of the editor. Floating point and the formats of humansize and humantime are
--     parameters.
--     Ui/Term is the interface of the terminal and of the text area.
--   * Program: the loop of `run_app` in ui.rs with its drawings, waits and answers, and the batches
--     that the closure in main.rs stores between its turns. Program/Terminal is `run_ui`, which sets
--     the terminal up before the loop and restores it after. The instants at which the clock is read,
--     the events and the failures of the terminal are given; a drawing and a batch are one step each.
--   * Xtask: the tasks of xtask that build and run the program, with the running of a command as a
--     parameter; a panic, an error and success are the three endings of a task.
--   Files named Examples and Tests evaluate the definitions and the theorems on concrete values.
--
-- Integers are native numbers with their wrap-around written out: counters wrap at 2 ^ 64, as
-- `fetch_add` does and `+` in a release build. The loop of `write_segment` runs on fuel, two more
-- than the truncated timestamp, and each round adds at least one window; the operators and groups of
-- a filter run on fuel from the length of the text. What the two do without fuel is an argument of
-- theirs, and each round consumes a character before the next.
--
-- Not modelled: the widgets of a drawing with their styles and layout, the bindings that bindgen
-- writes and the task that has them written.
-- Store/Writers models the lock of the segments for tasks that store batches and for tasks that view
-- the segments; Program has a drawing and the storing of a batch as one step each.
pub mod Shared
pub mod Std
pub mod Common
pub mod Clock
pub mod Filter
pub mod Store
pub mod Start
pub mod Events
pub mod Loading
pub mod Probe
pub mod Promise
pub mod Ui
pub mod Program
pub mod Xtask
