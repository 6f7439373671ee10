-- ===== src/Lib.antt =====
-- A model of the MasterControlProgram server (Rust), a server of the Model Context Protocol that runs
-- processes, terminals and observations on a Windows host for its clients.
--
-- Parts
--   * Base: the names that all modules share, lists, Boolean tests, results, and ordered maps as
--     association lists.
--   * Execution: src/execution.rs and src/execution/. A client that is registered starts jobs and
--     terminals; the manager reserves a part of the output budget, creates the process suspended,
--     admits its entry, and resumes it if nothing was closed or canceled in between. Threads fill its
--     output buffers and a supervisor gives the entry its final status.
--       Execution/Buffer (buffer.rs: `append`, `read`, `save`, `restore`), Execution/Record (the
--       data), Execution/Validate (`validate_start`, `input_bytes`), Execution/Entry (`terminate`,
--       `supervise` and the threads of a process), Execution/Registry (`reserve`, the drop of a
--       reservation, the admission in `start`), Execution/Start (the gate in `start`,
--       `shutdown_connection`, `shutdown`), Execution/Checkpoint (`checkpoint`, `restore`),
--       Execution/Quote (`quote_argument` of native.rs), Execution/Input (`InputWriter` of
--       input.rs).
--   * Observation: src/observation.rs. A client creates a watch of a source of events; the sink of its
--     provider appends events to one store, which drops old ones within its limits and counts them;
--     clients read pages of events and wait for one that a filter selects.
--       Observation/Record (the data), Observation/Validate and Observation/Match (`validate`,
--       `matches`), Observation/Store (`append`, `discard`, `forget`), Observation/Page (`read`),
--       Observation/Watch (`create`, `request_stop`, `remove`, the `Sink`), Observation/Wait (the loop of
--       a wait, `cancel_wait`, `shutdown_connection`, `checkpoint_failed`). The error that `checkpoint_failed` keeps
--       for the pages is apart from the store and not part of it. Observation/Watch/Calls lists the calls
--       and reports that change the store.
--   * Workflow: src/workflow.rs. A client starts a workflow of declared steps, whose arguments may bind
--     results of earlier steps; the host retains its record and lists its cancellation until it is over.
--       Workflow/Execute is the loop over the steps (`execute`), in which what happens to a step is given;
--       Workflow/Bindings (`validate_bindings`, `resolve`), Workflow/Validate (`validate`), Workflow/State
--       (`start`, `put_step`, `put_result`, `finish`, `status`, `cancel`, `shutdown_connection`,
--       `checkpoint_failed`, and what `shutdown` signals), Workflow/Snapshot (`snapshot`, `restore`).
--   * Desktop: src/desktop/observation.rs, with `Rect` of src/win32/display.rs, `validate_allocation` of
--     src/win32/screen.rs and `Operation::check` of src/desktop.rs. A capture is compared with an earlier
--     frame that the connection retained.
--       Desktop/Region (`Rect`, `union`, `add_region`), Desktop/Compare (`compare`), Desktop/Frames
--       (`FrameStore::observe`).
--   * Tests: concrete data, and the theorems applied to it.
--
-- How the code is read
--   * An identifier or a message is a `String`; a text whose bytes the code looks at is a list of
--     bytes, and the checks of a workflow measure a `String` by its bytes. An error is named after its message, and what a message quotes is dropped.
--   * A mutex is one state, and a block under its lock is one step. The calls of different threads are
--     a sequence of such steps in any order.
--   * The answers of Windows (a termination, a sample of a process, a new process), of the clock and of
--     the UUID parser are arguments.
--   * How a process splits its command line is a record of one function with the documented rules for
--     quotes and backslashes. A character is its code.
--   * The pipe of a terminal is a record of its answers to writes, with the law that it accepts no more
--     than it is offered; a write that fails may have delivered some of its bytes, which only the model
--     records. When a request is found canceled is given for each round.
--   * The base64 engine is a record of its two functions, with the laws that decoding undoes encoding
--     and that three bytes take four characters.
--   * A `BTreeMap` is an association list ordered by key. A cancellation token is a number, and the
--     registry lists those that were canceled. The `Reservation` values that calls of `start` hold are a
--     map beside the registry's counters.
--   * A screen coordinate is an integer, and a cast to 32 bits a remainder. What each call of
--     `Operation::check` sees is given. The identity of a capture's target, its scales and its monitor
--     layout are values of any type with a test of equality.
--   * `None` of `append`, `step` and `run` is the panic on a cursor beyond 64 bits.
--   * A JSON value in the arguments of a step is seen by its shape, an object, an array, a text or any
--     other value, with the law that a value is made again from its entries or items. The lengths of
--     values as JSON are arguments.
--   * The JSON library is a record of its functions. A `Control` is found by its watch, in the store and in
--     the sink; the reports that `read` copies into a page are dropped.
--
-- Fuel
--   * The `while` loop of `reserve` runs on fuel, a round for each entry: a round forgets one entry.
--     The loops of `append` and of `forget` have a round for each event: a round discards one event.
--     The two loops over the tiles of a frame run on its width and height, and a round advances by 32.
--     The loop that writes a request has a round for each of its bytes and one more: a round that goes on
--     writes at least one.
--     The recursion into the arguments of a step has 33 levels, as the depth that the code allows.
--
-- Not modelled
--   * The Win32 calls themselves, pipes and threads, the wait for processes to end at shutdown, the
--     protocol server and the tools that pass a request on to Windows.
mod Base
pub mod Execution
pub mod Observation
pub mod Workflow
pub mod Desktop
mod Tests
