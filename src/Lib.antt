-- ===== src/Lib.antt =====
-- slsfs: a file system for serverless programs. A data function (functions/datafunction/) takes the
-- requests of a file, cuts them into blocks and keeps every block on a block server (ssbd/); a proxy
-- (proxy/) starts data functions and gives files to them. A write is a two-phase commit: a prepare of
-- each block, which the block server logs or refuses, then a commit or a rollback of each, then
-- messages to further copies. A read asks for each block and puts the answers together.
--
-- Prelude (helpers), Bytes (memory images, byte order) and Text (decimal numbers) are shared.
--
-- Ssbd models ssbd/. Packet is leveldb-serializer.hpp (packet_header, its dump and parse), Key the
-- names of blocks, log entries and copies, Kv the database that LevelDB provides, a parameter with two
-- laws. Log is persistent-log.hpp, Block is rawblocks.hpp and the way a write is laid over an old
-- block. Node has one function for each handler of tcp_connection in main.cpp and start_read_header,
-- which dispatches; its state is the two databases. Spec says block by block what the server promises,
-- without keys or text, and Node/Simulation that the handlers do just that. Protocol runs sequences of
-- messages. A read of the socket that fails ends the connection and changes nothing; sockets, logging
-- and main are not modelled.
--
-- Backend models functions/datafunction/storage-conf-ssbd-backend.hpp. Split is the loop over the
-- blocks of a range, Requests the packets it sends (with libslsfs/slsfs/leveldb-serializer.hpp and
-- backend-ssbd.hpp for their bytes), Connection the requests of backend-ssbd.hpp that wait for an answer,
-- Coordinator the counters, votes, timer and replies of start_2pc_prepare and start_2pc_commit, Accumulator those of start_read, Replica the choice of
-- servers and start_replication, Directory what start_meta_addfile, start_meta_mkdir and start_meta_ls
-- make of a directory file. The salts, the random engine and the answers of the recoder are parameters.
--
-- Cache models functions/datafunction/caching.hpp: Table its maps, Lru the class LRUCache, Blocks the
-- reads and writes, Handover get_tables and build_cache, by which a data function that closes leaves what
-- it has cached to a new one. The list of nodes and the map to them are one list.
--
-- DataFunction models functions/datafunction/proxy-command.hpp: Command the requests of a file, between
-- the cache and the storage backend, whose answers are arguments, Listen the packets of a proxy, the
-- strands and the timer. Here a data function and the launcher meet: WithProxy follows a registration,
-- a response and the answer to a client, Moved a cache from one data function through the launcher to the next.
--
-- Writer models proxy/socket-writer.hpp, which libslsfs/slsfs/socket-writer.hpp repeats: Writer with
-- callbacks that run as a whole, Race with threads that take turns at each access.
--
-- Launcher models the proxy's jobs. Pool is the state of proxy/launcher.hpp with its workers
-- (proxy/worker.hpp) and jobs (proxy/launcher-job.hpp); Jobs has one function for each callback, among them
-- process_job, on_worker_close, worker::close and add_worker, and runs sequences of them; Socket is what
-- a worker's socket makes happen; Transfer reads the table that a closing worker sends. Of
-- proxy/policy/, Launch is the number of workers to start, Assign the choice of the least loaded worker
-- (and Assign/Active the counters of active_lowest_load),
-- Average the moving average of intervals; the launcher's functions take the policy
-- that assigns workers as an argument, whose get_available_worker may not return. Direct is start_trigger_post with process_job_with_worker. The timer that starts workers and
-- the reporter are not modelled.
--
-- Proxy models what a proxy sends and reads, and the ring of proxies: Header proxy/serializer.hpp, Request
-- proxy/json-replacement.hpp, Ring proxy/zookeeper.hpp with reconfigure of proxy/launcher.hpp. The names
-- that ZooKeeper gives, their times, and the decoding of names are parameters. Topics is the class bucket
-- of proxy/server.hpp with start_store and start_load, with packets as objects that writers refer to, and
-- Topics/Dispatch what each packet of a client starts. The choice of policies by name, proxy/trigger.hpp
-- and the calls of ZooKeeper that set up, watch and beat are not modelled.
--
-- Integers are written with their wrap-around. `none` stands for undefined behaviour, a copy outside a
-- buffer above all. Loops run on fuel: the loop over a range gets the bytes of the range, and each turn
-- moves on by at least one; the eviction gets one more than the nodes, of which each turn drops one;
-- the block numbers of a cache request get one more than its bytes; the loops over a table that is handed
-- over get its bytes, of which each turn takes some. The clock is not modelled, and the threads are
-- in Writer/Race only: elsewhere calls and callbacks run as a whole, in an order that is given.
pub mod Backend
pub mod Bytes
pub mod Cache
pub mod DataFunction
pub mod Launcher
pub mod Prelude
pub mod Proxy
pub mod Ssbd
pub mod Tests
pub mod Text
pub mod Writer
