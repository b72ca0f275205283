-- ===== src/Lib.antt =====
-- swarmDB: a decentralised database in C++. A swarm of daemons orders the requests of clients by PBFT (the
-- older way is Raft) and executes them on a key-value store.
--
-- Parts and files. A message between replicas comes in at `pbft::handle_message`, which drops what is outside
-- the water marks and records the rest in an operation (`pbft_operation`). Messages of enough peers bring the
-- operation through its phases; a committed one is posted to the service. The peers are those of the current
-- configuration (`pbft_configuration`) in the store of configurations (`pbft_config_store`), which requests of
-- their own kind change. Checkpoints that enough peers prove move the water marks and clear old operations.
--
--   Base                    names passed on, lists, maps, sets, 64-bit addition, the order of strings
--   Proto                   the messages of proto/*.proto
--   Storage                 storage/mem_storage.cpp, storage/storage_base.hpp
--   Crud                    crud/crud.cpp, over Storage; Crud/Subscriptions: crud/subscription_manager.cpp;
--                           Crud/OverRaft: crud/raft_crud.cpp, over Storage, Subscriptions and Raft
--   Audit                   audit/audit.cpp: State (memory and timers), Handlers; the other children prove
--   Raft/Log                raft/raft_log.cpp, raft/log_entry.hpp
--   Raft                    raft/raft.cpp: Quorum, State, Replication, Recovery, Elections (with the messages and the
--                           changes of the peers); their children prove
--   Pbft/Peers              bootstrap/peer_address.hpp
--   Pbft/External           what is used of protobuf, jsoncpp, std::hash and the service: parameters
--   Pbft/Operation          pbft/pbft_operation.cpp
--   Pbft/Configuration      pbft/pbft_configuration.cpp
--   Pbft/ConfigStore        pbft/pbft_config_store.cpp
--   Pbft/FailureDetector    pbft/pbft_failure_detector.cpp
--   Pbft/Service            pbft/database_pbft_service.cpp, over Storage
--   Pbft/Replica            pbft/pbft.cpp: State, Operations (phases), Checkpoints, Messages (handlers),
--                           Requests (clients, membership, timer, constructor); the other children prove
--
-- State and operations. A class is a record of its fields, a method a function of it with the method's name.
-- The methods of the replica are actions: they return a value and a state, or throw. What a replica sends,
-- posts to the service or reports to its failure detector is appended to `outputs`. Operations, which the code
-- shares by pointers, stand in the table `operations` alone; a write through a pointer is a write to the table.
-- Maps are association lists and sets are lists without repetition. `uint64_t` is a natural number below
-- 2 ^ 64 with the wrap-around written out; the two ports are reduced modulo 2 ^ 16. A loop over a collection is
-- structural recursion. The loop of `process_awaiting_operations` runs on fuel: each turn removes a key from
-- the storage, so more fuel than there are keys is enough.
-- The loops that commit in Raft run on the rounds between two indices, as many as they can take.
--
-- Hosts are converted to endpoints by Boost, which throws on what is no IPv4 address: `is_ipv4` is a parameter
-- and the throw is modelled, as it is caught or not. The one read of an erased element, in
-- `pbft::checkpoint_reached_locally`, ends the model's action as an exception does.
--
-- Not modelled: sockets, timers and threads (each handler is one step, although of those of `pbft` only
-- `handle_message` and `checkpoint_reached_locally` take its lock), logging, parsing of messages before the
-- handlers, JSON, hashing and serialisation, which are parameters (the file of the log of Raft holds entries,
-- not their text); of Raft the joining of a swarm and the requests for the list of peers; and what only calls
-- Boost, OpenSSL or RocksDB.
pub mod Base
pub mod Storage
pub mod Proto
pub mod Crud
pub mod Audit
pub mod Raft
pub mod Pbft
