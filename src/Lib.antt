-- ===== src/Lib.antt =====
-- The Rust side of an agent runtime (runtime/src): an agent is given a goal, and the plan executor asks
-- a language model's server what to do next, runs the tool that the server names, and tells the server
-- what came out, until there is an answer or a limit is reached.
--
-- The parts, and how they meet. The executor (planning/executor.rs) drives everything: it keeps the
-- conversation in the short-term memory (memory/short_term.rs), which evicts old messages to keep a
-- token budget and is summarised by the server when it is nearly full; it sends the conversation and
-- the schemas of the tools over the transport (ipc); it consults the loop detector
-- (reliability/loop_detector.rs) before each call of a tool; it calls tools through the registry
-- (tools/registry.rs), which validates the input, bounds the time (tools/timeout_config.rs) and asks
-- and informs the circuit breaker (reliability/circuit_breaker.rs) of that tool; and it has the end of
-- the task recorded in the episodic log (memory/episodic_log.rs).
--
-- The tools themselves (tools/mock.rs, tools/url_fetch.rs, tools/web_search.rs, tools/code_exec.rs) are
-- what `main` (main.rs) registers. Beside them stand the memory of facts (memory/long_term.rs), which the
-- loop does not read yet, and the tree of cancellation tokens (reliability/timeout.rs).
--
-- The files, with what they model of runtime/src:
--   Base and its children: ways of ending a call, durations and machine words, dictionaries that keep
--     the order of insertion (`HashMap`), the bytes of strings, slices that panic, and the reading
--     of numbers.
--   Reliability/CircuitBreaker: reliability/circuit_breaker.rs. State is a record of the atomics;
--     `can_execute`, `record_success` and `record_failure` are each one step. Threads has the same
--     three as the accesses of the atomics that they make, one a step, in any order among threads.
--     Phases has the states as the code goes through them, and Drawn the documented machine.
--   Reliability/LoopDetector: reliability/loop_detector.rs. `record` is `record_call`.
--   Reliability/Timeout: reliability/timeout.rs.
--   Memory/ShortTerm: memory/short_term.rs. The loop of `push` is `evict`.
--   Memory/EpisodicLog: memory/episodic_log.rs. Rows has the operations, with the database as a
--     parameter; Search the keyword's pattern, and how PostgreSQL reads one; Matching what a pattern
--     matches; Table what the SQL statements do with the rows of a table; Log the log as its callers see
--     it, a list of episodes.
--   Memory/LongTerm: memory/long_term.rs, with the database and its search as a parameter.
--   Tools/Error, Tools/TimeoutConfig, Tools/Registry: tools/mod.rs, tools/timeout_config.rs and
--     tools/registry.rs with tools/validator.rs. `truncate_json` is `truncate_text` on the text of the
--     value; the steps of `execute_with_timeout` are functions named for them, each calling the next.
--     Registry/Shared has the execution in two parts, `enter` before the tool runs and `leave` after it, and
--     the parts of the calls of any number of callers in any order.
--   Tools/Mock, Tools/UrlFetch, Tools/WebSearch, Tools/CodeExec: the tools, one file each. `execute` of a
--     tool is `mock_execute` and so on, an action on the world that may fail (Base/Effects), over the
--     interfaces of JSON (Tools/Effects), of HTTP (Base/Http) and of the container daemon
--     (`CodeExec.Docker`). Tools/Inversion has lemmas on such actions; SampleJson and SampleDaemon are
--     for tests.
--   Ipc: the messages of ipc/types.rs, the errors of ipc/error.rs, and the trait of ipc/mod.rs;
--     Ipc/Client the HTTP client of ipc/client.rs, which implements the trait.
--   Planning/Config, Planning/Error: planning/config.rs and planning/error.rs.
--   Planning/Executor: planning/executor.rs. Task has the state of a running task and the monad of its
--     actions; Messages what is put into the memory and sent to the server; Replan the loop of
--     `execute_tool_with_replan`; React the loop of `execute_inner`, and `execute` with its deadline;
--     Parallel how an executor is made, and `execute_parallel`. Trace has what a task does as a relation
--     on its states, one change a step, each with its event (a message pushed, a request to the server, a
--     summary, a call of a tool), and Trace/Rules, Trace/Replan and Trace/Runs lead from the actions of
--     the loop to such traces; Trace/Calls, Accounts, Requests, Backed, Keeps, Sound and
--     Deadline are about the detector, the steps, the requests and the registry along them.
--     Recalled is about the episode of a task in the log of Memory/EpisodicLog.
--     Sample has an executor for tests, and Scenarios the runs of the tests of the source.
--   StartUp: main.rs. `start_up` is the registrations and `trial` the validations and the execution
--     that `main` tries; StartUp/Agent puts the registry, the HTTP client and the executor together.
--
-- Choices. Numbers are natural numbers; `usize` and `u64` have 64 bits, and where a sum may pass that,
-- the wrap-around of a build without overflow checks is written out. The counters of the executor stay
-- below its limits, so they have no wrap. The loop of `execute_tool_with_replan` runs on fuel, one round
-- more than the replans that a step may have; the loops of `execute_inner` and of the memory are
-- recursion on the iterations that are left and on the messages. A panic is a way of ending, beside a
-- result and an error. Time is a reading of the world, which the tools, the server and the log may
-- change.
--
-- Parameters, because they are code of other packages or of other processes: JSON values and how they
-- are written, the JSON Schema validator, the hasher and the order in which a `HashMap` of counts is
-- iterated, the timers and the sets of tasks of the async runtime, cancellation tokens, HTTP, the
-- container daemon, the environment, the server and the database; the executor and the registry also take
-- the tools as parameters. The hypotheses on them are that the iteration passes over the entries of the
-- map and no others, that a future that returned in time returned what it computes, that a JSON value is
-- read as it was built, that the token of a child is cancelled with its parent's, and, for some theorems,
-- that what is written of steps is read back as it was; that a task that its deadline drops leaves the
-- registry as the task had it at some moment when it waited; that the SQL statements of the episodic log
-- act on a table of rows, of which the one inserted last has the newest time; and that the daemon keeps
-- account of its containers by their ids: a creation that succeeds adds one with a new id, a forced removal
-- succeeds and takes away the one of its id, nothing else changes them, and a future that ran out of time
-- changed them no more than its parts do.
--
-- In Threads, an access of an atomic takes effect at once for all threads, which is stronger than the
-- acquire and release orderings that the code asks for. In Tools/Registry/Shared, each of the two parts of
-- an execution takes effect at once, as where the callers share one thread; on several threads their
-- accesses of a breaker may interleave, as in Threads. What a tool returns, and at what time, is arbitrary.
-- The pool of an executor's long-term memory is that of the one database. In Tools/CodeExec, a call runs to
-- its end; Tools/CodeExec/Dropped has it as the future that it is, which its caller (the timeout of the
-- registry, the deadline of a task) may drop at an await. A request to the daemon that is dropped has had
-- its effect or none; the run of the container is one await, which leaves what a timer leaves that drops it.
--
-- Not modelled: the getters; printing, of which the model of `main` has what it reports of its trial;
-- logging, but for the slices that may panic in it; and how the branches of `execute_parallel` run:
-- what the set of tasks gives of them is a parameter, and that those left are aborted at the first error is
-- left out.
pub mod Base
pub mod Reliability
pub mod Memory
pub mod Tools
pub mod Ipc
pub mod Planning
pub mod StartUp
