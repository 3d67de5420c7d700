-- ===== src/Lib.antt =====
-- Verification of linuxcnc-status-monitor, the agent that watches a LinuxCNC machine: it counts
-- parts and times cycles, sends status packets, and keeps events for a manufacturing execution
-- system.
--
-- The sampling loop of status.py polls LinuxCNC. `ProgramFile` decides which file is the loaded
-- program, `ProgramInfo` knows its line landmarks, and `_CycleStateMachine` turns each poll into
-- calls of `CycleLineTracker` and `CycleTimeCalculator`. `PacketGate` decides which samples become
-- packets. `GcodeFileSender` sends the program's text. `Journal` keeps a history that the
-- dashboard can ask for. Events go through the spool of agent_mes_spool.py to the site service, to
-- which `Forwarder` sends them. `CycleLink` and `MesWorker` put the agent's own cycles and the events
-- of MillWright, the operator's program, into the spool. `UdpSender` sends the packets.
--
-- Common   shared names: Boolean tests, lists, `Floats` (Python's floats as a parameter with the
--          laws of their order) and `Tenths`, an instance of it for the examples.
-- Cycle    cycle_time_calculator.py. State: `_CycleState`, the fields of `CycleTimeCalculator` and
--          its private helpers. Operations: its public methods; `time.perf_counter_ns()` is an
--          argument. Snapshot: `snapshot`. Invariant, Accounting and Timing hold the proofs.
-- Tracker  program_tracker.py. Program: `ProgramInfo` and the scan `from_lines`; Lines:
--          `CycleLineTracker`; File: `ProgramFile`; Scanner: `ProgramScanner`; Macros:
--          `MacroMoves`. Ascending, Landmarks, Start, End, Scanned and MacroReads hold proofs.
--          A line number that is not known is 0, where the source has -1; what the
--          module's regular expressions answer for a line is the parameter `Patterns`.
-- Machine  status.py: `_CycleStateMachine`, `_is_program_running` and `_is_program_paused`. Sync,
--          Counting, Parts and Aborts hold the proofs. The constants of the module linuxcnc are a
--          parameter.
-- Spool    agent_mes_spool.py. State: the tables and the SQL statements; Store: append,
--          acknowledging, pruning, selecting, discarding; Epoch: `_open_epoch`. Inserted, Append,
--          Success, Rows and Order hold the proofs. A transaction that raises is rolled back to the
--          tables of BEGIN; it raises when the contract rejects an item or a number or an id is
--          taken, and other errors of sqlite, in it or in `_refresh` after it, are left out. The
--          event contract, contracts/mes/v1/validate.py, is a parameter.
-- Gate     agent_packets.py: `PacketGate`. Edges and Idle hold the proofs.
-- Gcode    agent_gcode.py. Split: `split_content`; Sender: the state and decisions of
--          `GcodeFileSender`. Pieces and Resend hold the proofs. The size of a piece as JSON is a
--          parameter, and so are the answers of `send`.
-- Journal  agent_journal.py. Writer: `Journal` (opening, failing, the disk check, the decision to
--          write); Reply: `build_reply` and the checks of a request; Server: `JournalServer`,
--          datagram by datagram. Between, Paging, Writing, Nonces and Replay hold the proofs. What
--          the database and the disk answer is given to each call.
-- Forward  agent_mes_forward.py. Sending: `_batch`, `_call`, `send_once` and `_receipts` of
--          `Forwarder`; Session: `_load`, `_capabilities` and `_look`; Loop: `step`. Delivery, Steady,
--          Pace, Waits and Progress hold the proofs. What the service, the files and the network
--          answer is an argument.
-- Link     agent_mes_link.py. Current: current_execution.json and `match`; CycleLink: the sampling
--          loop's side; Outbox: `OutboxReader`, which appends to the spool of Spool; Worker:
--          `MesWorker`. Correlate, Recorded, Operators, Facts, Drain and Copying (Batches, Stored,
--          Run, Reports, Progress) hold the proofs. `Run` lets MillWright add and prune events
--          between the steps.
-- Net      agent_net.py. Interfaces: the lists of interfaces and Mesa boards; Targets: the interface
--          plan and the targets; Sender: `UdpSender`. Sources, Listed, Confined,
--          Histories and Allowed hold the proofs.
-- Identity agent_identity.py: `load_or_create`; Again holds the proof.
--
-- Each part's module Tests holds concrete data and the theorems at it. Fallible calls return an
-- Option or an Outcome. Loops over a list are recursion on it. The loop of `split_content` has the
-- number of characters as fuel, since every piece takes one, and its binary search the length of
-- the range; the theorems on the pieces prove both enough. The loop of
-- `MesWorker.run_once` has as many steps as the outbox has rows, and one, which is proved enough.
-- Clock readings and counters are natural numbers; a difference that the source clamps at 0 is the
-- truncated one.
--
-- Not modelled: threads and locks (every method runs under its object's lock), logging, sockets,
-- files, configuration, enrolment, certificates and TLS, and the agent's other modules (status
-- document, discovery, signing, runtime checks, the main loop of status.py).
pub mod Common
pub mod Cycle
pub mod Tracker
pub mod Machine
pub mod Spool
pub mod Gate
pub mod Gcode
pub mod Journal
pub mod Link
pub mod Net
pub mod Identity
pub mod Forward
