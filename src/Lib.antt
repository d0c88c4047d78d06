-- ===== src/Lib.antt =====
-- Verification of the emule-indexer crawler.
--
-- The program: `packages/crawler` searches the eMule network through amuled daemons, over
-- their External Connections (EC) protocol, and records what it sees; `packages/matching` decides
-- for each file which wanted segment of an episode it holds; `packages/verifier` checks what was
-- downloaded; `packages/webui` shows the catalogue. The configuration names the instances of
-- amuled and the keywords. A cycle of searches puts a task for each keyword and channel into one
-- queue, and a worker for each instance takes them; the worker asks the EC client for results,
-- gives each of them to the matching engine, and stores what it decides. The download cycle adds
-- decided files to amuled and queues those that are complete for the verification cycle. The port
-- loop keeps the port of amuled equal to the one that is forwarded.
--
-- Where the code is modelled; paths are from packages/crawler/src/emule_indexer where no other
-- package is named:
--   Common     the shared names: lists over native numbers, results, bytes, Python strings as lists
--              of code points, dictionaries as association lists. `Effects` is code that changes a
--              state and may raise, and `Contracts` the rules for what holds after it.
--   Ec         adapters/mule_ec/codec.py and codes.py. `Tag` has EcTag and EcPacket, `Value` the
--              integer and hash tags, `Encode` encode_packet and what it calls, `Reader` the class
--              _Reader as a state that is passed on, and `Decode` the decoder: its nesting bound is
--              the structural argument of decode_tag.
--   Matching   packages/matching/src/catalog_matching. `Models`, `Normalization`, `Matchers` (also
--              combinators.py), `Config`, `Interpolation`, `Resolver` and `Engine` are the files of
--              these names; `References` and `Validation` have validate_config and its
--              checks, and `Ed2kLink` the link.
--   Settings   adapters/config: `Interpolation` is interpolation.py; crawler_config.py is `Values`
--              (what the parsed YAML holds, and the readers of a field), `Model` (the records),
--              `Sections` and `Crawler` (the parsers). `Running` joins it with the search.
--   Search     application/search_worker.py, run_search_cycle.py and record_observations.py with
--              domain/search and what scheduler_state_repository.py keeps. `Tasks` has the tasks,
--              `Pool` the loop of the workers over their queue, `Cycle` a cycle and the loop over
--              cycles, `Worker` the class SearchWorker, `Observing` record_observation, `Backoff`
--              the registry. `World` says what amuled, the catalogue and the clock answer.
--   Verify     `Queue` is the table verification_tasks of
--              adapters/persistence_sqlite/local_state_repository.py, `Cycle` is
--              application/run_verification_cycle.py.
--   PortSync   application/port_sync_loop.py.
--   Download   application/run_download_cycle.py with domain/download and
--              adapters/persistence_sqlite/download_repository.py. `Rules` has the policy and the
--              states, `Table` the table of downloads, `Cycle` one iteration; `World` says what
--              amuled, the disk and the catalogue answer and which calls of a repository fail.
--              `Moves` is the state machine that an iteration refines.
--   Domain     the rest of domain: `Keywords` is search/keywords.py and search/coverage.py, `Sets`
--              and `Buckets` are retention/buckets.py.
--   Observability
--              domain/observability (`Policy`) and application/edge_state.py (`Edge`).
--
-- An exception is the error of a `Result` or of an action; a message is left out. The workers of a
-- cycle are turns between two waits, in any order that a schedule gives: a list of the worker that
-- is next and of whether it is in backoff. asyncio chooses some of these orders. Outside the
-- repository, and so parameters: zlib (`Decompress`, an argument of decode_payload), floats and the
-- clock (`Search.Backoff.Timing`, `Settings.Values.Numbers`), the shuffle of the keywords, the
-- Unicode character database, RE2 and rapidfuzz (the record `Matching.Library`), and what the
-- records named `World` hold.
--
-- Bounds and fuel: a packet nests at most 32 levels and has at most 16 MiB, as in the code. The
-- resolver follows references on fuel and raises recursion_error without; for a configuration that
-- was validated, the depth that it was validated for is fuel enough. The depth itself is computed
-- on as many rounds as there are tokens, which are enough behind the check for cycles. What is
-- stated of the engine is stated of targets that the resolver did resolve. The loop that polls a
-- search runs on fuel and says whether it came to its end, which it does when the budget is used up
-- after as many intervals. A text is interpolated on as many rounds as it has characters, and a
-- round reads at least one.
--
-- Not modelled: sockets, HTTP, the SQL of SQLite, the event loop and its cancellation, processes,
-- logging, the web pages, and the loading of YAML; the EC client above the codec and its mapping of
-- packets to records; the identifier of the node; the compaction and the merge of catalogues; the
-- pipeline of the verifier; the composition of the program and its probes.
pub mod Common
pub mod Ec
pub mod Matching
pub mod Download
pub mod Domain
pub mod Observability
pub mod Search
pub mod Verify
pub mod PortSync
pub mod Settings
