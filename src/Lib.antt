-- ===== src/Lib.antt =====
-- The tracker liquid: what its sources do, as definitions that run, and what is proved of them.
--
-- The program is a BitTorrent tracker over HTTP. A connection hands the text of a request to
-- `RequestHandler::handle`, which parses and checks it, then serves an update of the site (accounts,
-- torrents, tokens, bans), a scrape, or an announce. An announce works on the swarms of a torrent,
-- on the account behind its passkey, on the counters, and on the rows that wait for the database.
-- Timers expire silent peers and flush the rows; threads send them.
--
-- The files and the code:
--   Base and its children: shared names, lists, dictionaries, words, texts, integers; `Outcome` is a
--     result, an exception (out_of_range, invalid_argument, length_error, system_error) or undefined
--     behaviour.
--   Platform: what comes from the operating system, as parameters: inet_pton, inet_ntoa, the
--     conversion to double; the clock's readings, and the bits of a field that is left unset.
--   Utility: src/misc/utility.cpp. HexToBin: percent decoding.
--   Config, Config/Load: src/misc/config.cpp, `load` on the lines of the file.
--   Stats: src/misc/stats.cpp. Response: src/misc/response.cpp.
--   Parser, Parser/Parse: src/misc/parser.cpp, `init`, `check` and `parse`.
--   User: src/handler/user.cpp. Peer: src/handler/peer.cpp. Torrent: src/handler/torrent.cpp.
--   Peers, Peers/TimedOut: src/handler/peers.cpp, a swarm with its iterator.
--   Database: inc/database/db.hpp and the record functions of src/database/mysql.cpp. Database/Flush:
--     its flush; Database/Flush/Queue: the lists under the event loop and the threads.
--   Handler and its children: src/handler/requestHandler.cpp. Update is `update` and what it calls;
--     Announce and Announce/Reply are `announce` and `getPeers`, in stages; Scrape is `scrape`;
--     Clean is `clearTorrentPeers`; Handle is `handle` and the head of `announce`; Load is the loads of
--     src/database/mysql.cpp; Lifecycle is `init`, `stop` and `flushSqlRecords`; Valid is the
--     invariant of the whole state.
--   Connection: src/network/connectionHandler.cpp, a connection's events as a step relation; Delivery:
--     what its peer is sent. Connection/Address: `getPeerInfo` of src/network/connectionHandlerIPv6.cpp.
--   Connection/Open: how a connection is set up on an accepted socket, with `init` of
--     src/network/connectionHandler.cpp, the rest of src/network/connectionHandlerIPv6.cpp, and
--     src/network/connectionHandlerIPv4.cpp.
--   Kernel: the calls of the socket API as a history, and what they return, as a parameter.
--   Logger: src/misc/logger.cpp.
--   Server: src/network/server.cpp, src/network/serverIPv4.cpp, src/network/serverIPv6.cpp.
--   System: the tracker under requests, the timers of src/network/server.cpp and the threads, as a
--     step relation. Service: the tracker with all its connections, under the events of the loop.
--   Program: the options of src/main.cpp; Program/Main: `main` up to the event loop, and `handler`.
--   The other child modules hold proofs, and are named for what they prove.
--   Examples, Tests: a platform and a tracker on which the definitions run, and the theorems at them.
--
-- State and aliasing: `Tracker` holds the static members of RequestHandler. A `User*` is an address
-- in a heap of accounts, which updates never free; a `Peer*` is a swarm's name and a peer id. A map is
-- an association list, whose order stands for the iteration order of the source's container. The
-- iterator of a swarm is past the end, at an id, or dangling after an erasure; an insertion is taken
-- to leave it alone, where the source may rehash.
--
-- Integers: unsigned int and unsigned long wrap at 2^32 and 2^64 as written. The int of `numwant` is
-- an integer without bounds: it is at most the swarm's size, and where a negative one makes the
-- product with the size of an entry overflow, C++ leaves the result open and the model does not.
-- The time of a token is taken to be below 2^63, and the size of a read to be positive.
-- The texts of numbers are read as std::stoul and std::stoi document.
--
-- Fuel: the loops of the parser and of `removeUsers` take as many rounds as the text has bytes at
-- most, since each round consumes a byte; a range of bans takes `range_size` rounds, and more are
-- not used; the shown level of a counter rises 9 times at most.
--
-- Threads: a flush and a round of a thread are one step of `Queue` each, the lock is taken as the source
-- takes it, and an iterator that has come to the end of its list ends its loop. The source's `flush`
-- takes no lock: what comes of a flush that pushes to a list while a thread walks it is not modelled, and
-- what is said of the rows under flushes and threads has the condition that none comes while a thread
-- holds the lock.
-- `stop` gives the threads that its flush starts, and does not run them.
-- The MySQL server is a parameter: what its queries answer, and the rows that it selects, whose
-- columns are read as C strings.
--
-- The system: what a call of the socket API returns is any function of the calls that were made
-- before; a run that throws keeps its history. The file of settings is a parameter, by its lines. A signal is
-- modelled by its handler alone, not by when it comes.
--
-- Not modelled: libev, whose events are the steps of `Service`; the MySQL client; the memory that a
-- connection reserves; close(2) and shutdown(2) on a connection that ends; the messages of the log but
-- for those of `main` and of `acceptClient`, and calls in the others that can fail; zlib in
-- `gzip_compress`, which nothing calls; and getters, which are the fields of the records.
pub mod Base
pub mod Platform
pub mod Utility
pub mod Config
pub mod Stats
pub mod Response
pub mod User
pub mod Peer
pub mod Peers
pub mod Torrent
pub mod Database
pub mod Parser
pub mod Handler
pub mod Logger
pub mod Kernel
pub mod Connection
pub mod Server
pub mod System
pub mod Program
pub mod Service
pub mod Examples
pub mod Tests
