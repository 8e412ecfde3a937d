-- ===== src/Lib.antt =====
-- stateline: a model of a distributed Markov chain Monte Carlo sampler, and proofs about it.
--
-- The program. A server (the delegator, src/comms/delegator.cpp) takes requests for likelihood
-- computations, splits them into jobs, hands the jobs to connected workers and answers a request
-- when all its jobs are done. Its messages (src/comms/messages.hpp) travel over sockets
-- (src/comms/socket.cpp), and a router (src/comms/router.cpp) gives each to the callback that is
-- bound for its socket and subject. The inference side (src/infer) keeps stacks of chains at rising
-- temperatures in a chain array, which moves states from memory to files (src/db/db.cpp).
--
-- The files.
-- - Prelude: Booleans, lists, `Result` with the faults of the program, machine words. A `uint` is a
--   number below 2 ^ 32, its wrap-around written out by `wrap`.
-- - Std: what the code uses of the C++ library: ordered maps and sets (Map), `std::to_string`,
--   `stoi` and `stoul` (Decimal), vectors with their undefined accesses (Vector). A map is the list
--   of its entries in the order of the keys. Text is a list of bytes.
-- - Common: src/common/string.hpp (Text) and src/common/circularbuffer.hpp (CircularBuffer).
-- - Comms.Messages, Comms.Socket, Comms.Router: the files of the same names in src/comms. A message
--   on the wire is the list of its parts. A handler is a function on the state of its component.
-- - Comms.Delegator: src/comms/delegator.cpp, by State (delegator.hpp), Schedule (timeForJob,
--   usTillDone, bestWorker), Handlers (connectWorker, receiveRequest, receiveResult,
--   disconnectWorker, sendFailed), Polling (onPoll) and Wiring (the constructor's callbacks and
--   bindings). Count holds the invariant: the jobs of a pending request that are done and those
--   queued or in progress add up, each outstanding job has a slot for its result, job ids are
--   unique, and each worker has a record of times for each job type that it takes. Events and
--   Histories are the steps of the delegator and what it can reach by them, Effects what a step
--   does to the requests. Answers says what a right answer to a request is, and Runs is about whole
--   runs with workers whose results are values of their jobs (Completed is a small one).
-- - Comms.Worker: src/comms/worker.cpp, the queue of jobs in front of a minion; Arrivals has the
--   messages that a worker can receive, and Order is about their order.
-- - Comms.Minion and Comms.Requester: src/comms/minion.cpp and src/comms/requester.cpp, the
--   messages at the two ends of the delegator; Exchange and Batches are about what they understand,
--   TypeSets and Types about the sets of job types that a request goes through.
-- - Comms.Pipeline: the requester, the delegator and the minions together, from `submit` to
--   `retrieve`; Computed says what a minion gives for a JOB message, Runs puts the runs of the
--   delegator between the two ends, and Sample is a small run.
-- - Comms.ServerHeartbeat: src/comms/serverheartbeat.cpp, which clients are monitored, when each was
--   heard last and what is sent to them; Timeouts is about monitorTimeouts and deleteClient.
-- - Comms.ClientHeartbeat: src/comms/clientheartbeat.cpp, when a worker sends its own heartbeat;
--   Rate is about sendHeartbeat.
-- - Infer.ChainArray: src/infer/chainarray.cpp, by State (the vectors and their accessors), Storage
--   (flushToDisk and the writer), Moves (append and swap), with Ids, Views, Flushing, FlushAll and
--   Appending for proofs; Swapping is about swap, Clock about the time of a flush.
-- - Infer.Adaptive: src/infer/adaptive.cpp, the adapters of step sizes and temperatures (Regression)
--   and the shape of the proposals (Shaper). Regression.Shape holds the invariant: the sizes of the
--   vectors, and that each window of acceptances is short of n_window and has its sum beside it.
-- - Infer.Proposal: the proposal functions of src/infer/sampler.cpp.
-- - Infer.Sampler: the class Sampler of src/infer/sampler.cpp. Its requester is the list of the ids
--   whose batches are out. Ladder is an abstract protocol of the locks, whose moves Refinement finds
--   in `step`; Shows and Swaps are the operations on the way, Histories and Progress what can be
--   reached from the constructor, Draining and Finishing the two parts of `flush`.
-- - Infer.Diagnostics and Infer.TableLog: src/infer/diagnostics.cpp and the counters of
--   src/infer/logging.cpp; Counts and Counters are about what they count.
-- - App.ServerWrapper: `runSampler` of src/app/serverwrapper.cpp, which puts the parts of Infer
--   together.
-- - App.Settings: readSettings of src/app/jsonsettings.hpp, `fromJSON` of src/app/serverwrapper.hpp
--   and the bounds of src/infer/sampler.hpp; Reading is about what they ask of a file.
-- - App.WorkerWrapper: runMinion of src/app/workerwrapper.cpp; Loop is about its results.
-- - Db: src/db/db.cpp, the text of the states in the files; Rows and Files are about what it holds.
-- - App.Api: the class ApiResources of src/app/api.cpp.
--
-- Faults. What the C++ code leaves undefined, an exception and a failed assertion are values of
-- `Fault`, and an operation that meets one returns it in place of a state.
--
-- Bounds. The functions recurse on lists and numbers of the state; `to_digits` alone takes fuel, a
-- number above the one that it prints, which has at least as many steps as there are digits.
--
-- Parameters. Whether ZeroMQ accepts a message (`Zmq`, `Sockets`), what a poll finds on the sockets,
-- the clock, the random draws and the JSON library are arguments, and so are `std::stod` and
-- `std::to_string` of a `double`. `double` and the vectors and matrices of Eigen are the record
-- `Doubles`, of which no law is assumed. Comms.Pipeline takes as hypotheses that the text of a
-- printed `double` holds no colon, is not empty and can be read by `std::stod`.
--
-- Not modelled: the printed table of src/infer/logging.cpp; threads, logging, the command line and
-- signals of src/app; the programs of src/bin; the set-up of ZeroMQ sockets and the opening of
-- the files. Of the sampler's calls to its requester only the ids are kept, so that
-- its job types and samples are taken not to be empty (the joins of `submit` are undefined then); in
-- which order the results come is left to the history.
pub mod Prelude
pub mod Std
pub mod Common
pub mod Comms
pub mod Infer
pub mod App
pub mod Db
