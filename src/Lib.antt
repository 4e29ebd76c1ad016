-- ===== src/Lib.antt =====
-- Color: ordered, exactly-once conversations over a lossy network, with server failover.
--
-- The program is a client core, a server core, and a wire format for what survives a failover. The
-- client numbers its requests and sends, with each, which responses it has seen: all below a base,
-- and a list of newer ones. Client and server write both kinds of event into a history with a rolling
-- hash; the server commits requests in the order of their numbers, and writes the responses that a
-- request acknowledges before the request. A server can be replaced by one that is built from an
-- older checkpoint; it asks the client to replay the events behind its own history.
--
-- Modules, and what they model:
--   Prelude          names of the library, tests on numbers, 64-bit words, lists
--   Dict             std::unordered_map and std::unordered_set
--   Text             std::string, std::to_string, strtoull
--   Core             src/core: Message, History, Checkpoint, Client, Server. Core/Transcript is the
--                    specification: the events of a conversation as a function of its requests
--   Wire             src/wire/failover_json.cc: Serialize (to_json), Parser, Parse (from_json_*)
--   Http             src/server/color_interceptor.*: Interceptor, and the reading of headers in Headers;
--                    src/client/color_http_client.*: Sender, and the writing of headers in Headers;
--                    src/client/curl_transport.*: Curl, and write_header in Lines; Replies
--                    follows a response from the server to the client
--   Executor         src/server/thread_pool_executor.h, the pool that runs the callbacks
--   System           client, server and network as a step relation, with every loss, repetition,
--                    reordering, checkpoint and failover: what a run of the harness may do
--   Harness          verification/src: Link (sim_network.h), Checker (checker.h), Driver and Phases
--                    (fuzz_main.cpp, run_one); Refinement takes a run back to steps of System
--   Programs         the three programs: Args (the loop over the arguments), FuzzMain
--                    (verification/src/fuzz_main.cpp), ClientMain and ServerMain (demo/src)
--   Tests            concrete runs
--
-- Conventions. Numbers are natural numbers; where C++ adds to a 64-bit word, `inc64` and `add64` wrap
-- around. Callbacks are lists of the calls made to them. The application is a function with a state
-- of its own, which a theorem may choose. A map is an association list: where the source iterates
-- over an unordered map, the model takes the order of the list. A request can reach the server many
-- times, late or never: the network of System is the set of all that was ever sent.
--
-- A conversation is what System.Reach reaches from System.start. Its steps keep ids and event counts
-- below 2^64, and a replay is ingested only when it starts within the history that the server has.
--
-- Fuel. `commit_loop` runs on one more round than requests are staged, and each round takes one off.
-- The loops of the JSON readers run on one more round than characters are left; each round reads one
-- at least. The loop of `skip_value` inside brackets runs on as many rounds as characters are left at
-- its bracket, and each round but those of an end takes one; a loop that ran out of rounds would make
-- the reader return nothing.
--
-- `send_loop` runs on one more round than the list of the POSTs' results is long, and each round takes
-- one off; `csv_loop` on one more than the characters, of which each round takes one.
--
-- HTTP. A net_http request object is its identity, the function from header names that it answers
-- with, and its body; what was done to the objects is a list. A transport is the list of the results
-- that its POSTs will have. A mutex makes each call of the interceptor one step. The checkpoint file is
-- its content, replaced as a whole.
--
-- Harness. The random generator is a record of draws over any state, and probabilities are any type,
-- so a theorem on a run holds for every seed and every distribution. The latencies of a link
-- are natural numbers; `max_latency` of the configuration is an `int`, which the bound of the checker
-- takes as a size_t, with its wrap-around.
-- The drain phase runs on as many rounds as its cap; a theorem on a run that must have come to rest
-- asks for `is_done`.
--
-- Programs. How std::stoi, stod, stoull and strtod read a text is a parameter; `int` is a sign and a
-- number, and the counter of the client program's workers wraps around at INT_MAX. They run on 2^32
-- turns for each worker, of which each ends its loop at INT_MAX, if not before. net_http is a
-- parameter of the server program, which may keep running.
--
-- Not modelled: the insides of net_http and libcurl, failures of the file system, what is printed,
-- and, with several workers in the client program, the interleaving of their sends within a message.
pub mod Prelude
pub mod Dict
pub mod Text
pub mod Core
pub mod Wire
pub mod Http
pub mod Executor
pub mod System
pub mod Harness
pub mod Programs
pub mod Tests
