-- ===== src/Lib.antt =====
-- The CAF worker of beamline: an actor system that runs the steps of flows as blocks of code.
--
-- The process starts two servers and the worker actor. A request comes to the worker actor, which
-- picks a pool of the class cpu, gpu or io. The pool actor holds a number of slots and a queue: it
-- starts an executor actor for each request that has a slot, and the executor sends "done" when its
-- step has ended. The executor runs its block with retries under a budget of time; the blocks write
-- and read files and send HTTP requests. The result is converted to the published form. Beside them
-- stand the flags of the environment, the retry policy, the timeouts, a scheduler with quotas, a
-- sandbox with mock results, and the observability with its logs, its metrics and its two servers. A
-- second, smaller worker has pools of threads in place of actors, and stubs in place of blocks.
--
-- Files, and the code each is about:
--   Core        processor/include/beamline/worker/core.hpp: the shared data.
--   Flags       processor/include/beamline/worker/feature_flags.hpp, over the environment `Env`.
--   Pool        processor/src/worker_actor.cpp, PoolActorState; `receive` is one message. The children
--               prove the service of the queue (Drain), a case analysis (Cases), the load (Load), the
--               executors that run (Executors), the order (Order), cancellation (Cancel), the bound
--               of the queue (Bound), the end of the queue (Progress) and the gauges (Gauges).
--               Desk is a specification without loads and messages, and Moves and Refinement relate the
--               pool to it; Overtaking is the order under refusals and cancellations; Lines is what
--               the pool logs, and Accounts what the log tells of the requests.
--   Retry       processor/include/beamline/worker/retry_policy.hpp.
--   Executor    processor/src/worker_actor.cpp, ExecutorActorState: execute_with_retry and
--               execute_single_attempt. The clock, the sleep and the block are a parameter, `Host`.
--               Executor/Messages is the actor's messages and the labels that record_step_metrics
--               builds and drops.
--   Converter   processor/include/beamline/worker/result_converter.hpp.
--   Worker      processor/src/worker_actor.cpp, WorkerActorState: the pools, the routing, the handlers.
--               Worker/Crew is the whole worker, with its mailbox, its pools and their executors:
--               what it sends to each pool (Routes), what a pool sees of it (Views), what holds in
--               all of its states (Safety) and what its work leads to (Work, Served). Worker/Cluster is
--               the worker with its pools alone, without mailboxes.
--   Service     the pool together with its executors and its mailbox: what holds in all of its states
--               (Safety, Everywhere) and what its work leads to (Progress, Served).
--   Scheduler   processor/src/scheduler.cpp: quotas and the choice of a pool.
--   Timeouts    processor/include/beamline/worker/timeout_enforcement.hpp.
--   Blocks      processor/include/beamline/worker/base_block_executor.hpp; Blocks/Fs, Blocks/Http,
--               Blocks/Human and Blocks/Sql are fs_block.cpp, http_block.cpp, human_block.cpp and
--               sql_block.cpp of processor/src/blocks, over the parameters `FileSystem`, `Network`,
--               `Clock` and `Database`, which stand for the libraries. Blocks/Executed is a block as its
--               executor runs it, Blocks/Created the blocks that a pool makes, each with its executor, and
--               Blocks/Fs/Executed the write and the read of a file by executors.
--   Observability  processor/src/observability.cpp, and ingress/src/ingress_observability_stub.cpp:
--               the filter (Pii), the lines (Log) and their timestamps (Timestamp), the metrics
--               (Metrics), the servers (Endpoint, and their loops in Serving) and the ingress (Ingress).
--   Runtime     processor/include/worker (Types), processor/src/executors (Stubs),
--               processor/src/runtime/actor_pools.hpp (Threads) and scheduler.cpp (Schedule).
--   Sandbox     processor/src/sandbox.cpp, over the parameter `Machine`; Sandbox/Cases is words in a
--               text in any case of their letters, which Sandbox/Checks reads the check of queries by.
--   Main        processor/src/main.cpp, main and caf_main, and processor/src/ingress_actor.cpp.
--   Base        helpers: texts, maps as association lists, integers with a sign, Boolean tests.
--   Tests       concrete runs.
--
-- Numbers: a signed integer is `ℤ` over the native naturals; where C++ arithmetic can overflow within
-- the ranges that the code meets, the delay of the retry policy, the limit of memory of the scheduler
-- and the counter of approvals, the width is written out and an overflow is `none`. The recursion of process_pending and execute_step runs on the length of the
-- queue plus one, since each round takes one request off the queue. The retry loop runs on its number
-- of rounds.
--
-- Laws that are assumed of a library stand as records: `KeepsFiles` of a file system, `CountsHandles` of
-- curl, `CountsOpen` of SQLite, `IsCounter` of a block whose runs are counted. A file that was opened
-- holds what was written to it when no write and no close has failed, which `completes` of `KeepsFiles`
-- says and `NeverFails` asks for; a connection of `CountsOpen` closes only when its statements are
-- finalized. Whether the close of a server's socket wakes its thread is an argument, `Wakes`: when it
-- does not, the join never returns.
--
-- A thread pool is a step relation: a step is what a thread or a caller does between two releases of
-- the mutex. What every schedule leads to is `Inevitably`, of Base/Progress.
--
-- Not modelled: CAF's delivery of messages beyond the order of one mailbox, and its command line; the
-- printing of JSON; the metrics and the tracing whose library calls are commented out in the source;
-- the inspectors of the structures. processor/src/block_executor.cpp holds no code.
mod Base
pub mod Core
pub mod Flags
pub mod Pool
pub mod Retry
pub mod Executor
pub mod Converter
pub mod Worker
pub mod Scheduler
pub mod Service
pub mod Timeouts
pub mod Blocks
pub mod Observability
pub mod Runtime
pub mod Sandbox
pub mod Main
mod Tests
