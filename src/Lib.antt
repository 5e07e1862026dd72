-- ===== src/Lib.antt =====
-- ollamux is a proxy that spreads the requests of Ollama clients over several API keys of one
-- upstream. This library models its core and proves what makes it correct.
--
-- The parts, and the files that model them:
--
-- * src/config.rs reads the keys file: `Config` has `Keys::parse` and `Keys::load` with the format,
--   the limits and the errors. The file system and the environment are the record `Environment`.
-- * src/affinity.rs pins conversations to keys. `Affinity` is the map `AffinityMap` with its
--   eviction (`get`, `put`, `remove_if`), `Affinity.Spec` a list of pins that it is to implement,
--   and `Affinity.Identity` the hash `fnv1a64` and `identity_from`.
-- * src/pool.rs is the key pool. `Pool` has its state and the pins, `Pool.Marks` the health
--   transitions (`mark_dead`, `mark_cooldown`, `mark_strike`, `settle`), `Pool.Quota` the over-quota
--   mask, `Pool.Select` the order in which keys are tried (`candidates`), `Pool.Admit` the slots and
--   the waits (`try_acquire`, `acquire_on`, `admit`, `admit_affine`), and `Pool.Info` the rows of
--   the status endpoint. `Pool.Interleaving` has the steps of several threads as a relation.
-- * src/usage.rs polls the quota of each key: `Usage` is the decoded payload, `Usage.Fetch` the
--   request for it (`fetch_balance_http`), `Usage.Tracker` the rounds of fetches with backoff,
--   throttling and carried rows, `Usage.Aggregate` the mean over the keys, `Tiers` the plan tiers,
--   and `Snapshot` the rows that the tracker publishes and the pool reads.
-- * src/proxy.rs serves a request: `Proxy.Route` has `handle` and `route`, with the endpoints of the
--   proxy's own; `Proxy` has `proxy`, `attempt` and `classify`, from the body of the request over the
--   admission to the failover between keys; `Proxy.Headers` the headers that cross the proxy,
--   `Proxy.Stream` the relay of a streamed answer, `stream_chunked`, and `Proxy.Answers` the answers
--   that are sent whole (`relay_error`, `respond_buffered`, `send_reject`). It calls the pool, which calls
--   the pin map, and the tracker, which publishes into the pool.
-- * src/main.rs starts all this: `Cli` has `parse_args`, and `Cli.Startup` what `main` makes of the
--   command line and the keys file, up to the pool that serves. `Cli.Serving` has the main loop, the
--   drain and the loop of a worker over what the listener yields.
-- * src/main.rs and src/proxy.rs under threads: `Threads` has the stages of a request as the program
--   counter `Pc` of a thread, the operations of the pool that lead from one to the next (`Move`), and
--   their interleavings (`Step`, `Reach`). Where `Proxy` follows one request with what the others do
--   as an argument, `Threads` follows all of them, and `Threads.Refinement` shows the first to be a
--   run of the second. `Proxy.Poller` is the thread of `spawn_usage_poller`.
-- * `Base` has what they share: tests, lists, texts, sorting and bits on native numbers. `Samples`
--   and the `Tests` modules hold runs and sample data.
--
-- How the code is modelled: a `Mutex` or an atomic is one step for each operation, and a function
-- that locks several times in turn (`mark_strike`, `candidates`, `admit`) is one step at one reading
-- of the clock, unless it waits. `none` is a panic on an index out of range, or the end of what the
-- environment was said to grant. Times are nanoseconds. Counters wrap at their width. A `HashMap` is
-- an association list with each key once. `f64` is a parameter, `Floats`, and so is the
-- serialisation of JSON.
--
-- Loops need no fuel of their own: they go over lists. The wait of `acquire_on` goes over the rounds
-- that the environment grants, and ends at the first one past the deadline; the loop of `proxy` goes
-- over turns, of which three are enough. The drain goes over its passes, of which 101 that receive
-- nothing are enough, and a nap of the poller over its looks at the clock, of which 241 are enough.
--
-- Not modelled: the sockets (the writes of a stream fare as the record `Wire` says, what becomes of
-- another answer is the argument `Delivery`), what ureq and tiny_http do, the text of JSON and of messages,
-- logging, and the binding of the address and the signals of src/main.rs.
pub mod Base
pub mod Affinity
pub mod Tiers
pub mod Snapshot
pub mod Pool
pub mod Config
pub mod Usage
pub mod Proxy
pub mod Cli
pub mod Threads
pub mod Samples
