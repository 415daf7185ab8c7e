-- ===== src/Lib.antt =====
-- some-server: a game server of several processes (gate, game, relay) on one IPC framework.
--
-- The parts, and the files that model them (paths from the root of the repository):
--
--   Base          what all parts share: tests on numbers, byte strings and equality (Tests), lists
--                 with native lengths (Lists), hash maps as association lists (Table), the texts of
--                 std::to_string and std::stoul (Decimal), and texts in fields (Fields).
--   Application   src/framework/application/base.h: load, start, stop and unload are the stages of
--                 ApplicationBase, over services that end or throw. Batches has the loops over the
--                 batches, Starting what a start ends in.
--   Ipc.Types     src/framework/ipc/base: results, identities, addresses, envelopes.
--   Ipc.Frame     src/framework/ipc/transport/frame.h: SerializeFrameHeader is
--                 serialize_frame_header, DeserializeFrameHeader is deserialize_frame_header. The
--                 fields stand in the order of a little-endian machine.
--   Ipc.Transport src/framework/ipc/transport/tcp_transport.cpp: frame_bytes is what Send writes,
--                 reader_loop is ReaderLoop over the bytes that a connection delivers.
--   Ipc.Control   src/framework/ipc/link/control_codec.cpp: EncodeHello is encode_hello and so on.
--                 The protobuf code is generated; ControlCodec is what is relied on.
--   Ipc.Link      src/framework/ipc/link/link_manager.cpp: LinkManager with on_connection_event,
--                 on_frame and the queries. An Input is one event or frame, run takes several.
--   Ipc.Routing   src/framework/ipc/routing/relay_first_policy.cpp: resolve is Resolve, and
--                 resolve_single_target is ResolveSingleTarget.
--   Ipc.Directory src/framework/ipc/receiver/local_receiver_directory.cpp: resolve, bind, rebind,
--                 invalidate, clear. Refinement has the plain map that it stands for.
--   Ipc.Discovery src/framework/ipc/discovery: Discovery is the view in memory. Etcd has
--                 EtcdDiscovery over a backend and a JSON library that are parameters, Diff
--                 QueueDiffEvents (queue_diff_events), Base64 Base64Decode, and Watch WatchLoop, one
--                 watch_step from one wait of the thread to the next. Replay is what a reader makes
--                 of the events.
--   Ipc.Messaging src/framework/ipc/messaging and receiver/receiver_registry.cpp: send_envelope is
--                 SendEnvelope, which calls itself for each of several hops; Calls has the ways to
--                 send, HandleIncomingFrame and TransportMessageSender, Codec data_codec.cpp.
--                 Delivery and Arrival say what becomes of a message.
--   Storage.Configuration
--                 src/framework/storage/resolved_configuration.cpp: resolve_storage_configuration is
--                 ResolveStorageConfiguration. Checking says what the check of one data set promises,
--                 Resolution what the resolution gives.
--   Storage.Service
--                 src/framework/storage/service.cpp over servers that are a parameter: the commands,
--                 Datasets with DatasetPut, DatasetGet and DatasetDelete, Connections with Load and
--                 Unload. Reading joins it to the storage that Game.Repository uses.
--   Game.Redis    the commands that the leases send to Redis, over a server that is a parameter:
--                 a command may run with its reply lost. RedisLaws is its documented behaviour.
--   Game.Lease    src/game/services/player_lease_service.cpp: which process serves a player. Each
--                 method is a function of the service and the server; a round of Loop is
--                 renew_round.
--   Game.Repository, Game.Runtime, Game.IpcClient
--                 src/game/services/player_repository.cpp, player_runtime_service.cpp and, for the
--                 binding of players and SendProcessPayload, ipc_client_service.cpp and player_receiver_host.cpp. The
--                 storage and the player data code are parameters.
--   Game.Session  src/game/services/player_session_service.cpp: activate_player is ActivatePlayer,
--                 over the four services above, which a Game holds together. Ending has
--                 DetachPlayer, ReleasePlayer (release_session) and ExpireDetachedPlayers, Losses
--                 has ReconcileLeaseLosses, and Calls takes the calls one after the other.
--   Game.Persistence
--                 src/game/services/player_persistence_service.cpp: should_flush is ShouldFlush,
--                 compute_retry_delay_ms is ComputeRetryDelayMs, and flush_due_players_once is a
--                 round of Loop, over a Game. Rounds has what it does to a player, Delay the bounds.
--   Gate.State    what the services of a gate keep, as one record, and the World that they act on:
--                 sockets, clock, Redis, network, generated protobuf code. WorldLaws is what is
--                 relied on.
--   Gate.Sessions, Gate.Accounts, Gate.Routing, Gate.Protocol
--                 src/gate/services: session_service.cpp, account_directory_service.cpp,
--                 routing_service.cpp and client_protocol_service.cpp, a function for each method.
--                 Entries says what the account directory reads back and removes.
--   Gate.Connections
--                 src/gate/services/connection_service.cpp: Worker has Start, Stop and WorkerLoop
--                 (worker_round is one round), Writing what a write leaves alone.
--   Gate.Login    src/gate/services/login_service.cpp and auth_service.cpp: Requests has
--                 HandleClientLogin and RequestLogin, Kicks KickExistingAccountSession and the two
--                 requests to end a session, Answers HandleLoginResponse, Disconnect
--                 HandleSessionDisconnected. Beginning, Kicking, Closing, SignedIn and Once have
--                 what they come to.
--   Gate.Messages src/gate/services/player_message_service.cpp and the dispatcher of client messages
--                 in src/common/protocol. Exchange has a message with its answer.
--   Gate.Console, Gate.Run
--                 src/gate/application.cpp: the console commands that change a gate. Run takes the
--                 rounds of the worker, the messages of other processes and these commands one
--                 after the other.
--   Examples      codecs, a storage and a Redis server that run, and the theorems at concrete
--                 inputs.
--
-- How they interact: a session is activated by taking the lease, loading the data, binding the
-- receiver in the directory and creating the instance, and what was done is undone where a later
-- step fails. The lease loop runs in its own thread, under the lock of the lease service; here it
-- is a call between the calls of the session service, each of which runs alone. The persistence
-- flushes the repository of the same Game. A message goes from the messenger, which asks the
-- directory and the routing, over a link to the messenger of the next process; the routing sees
-- the members that discovery has found. A client signs in over a connection of a gate, which asks a
-- game process over the IPC network and takes its answer as a later message; the end of a connection
-- goes through the disconnect handler to the login service.
--
-- Bounds and fuel: numbers are natural numbers, with the wrap-around written out where the
-- program adds to a 64-bit counter or a clock, and where it puts a length into a 32-bit field.
-- The loop reader_loop takes fuel, one for each round; a round takes at least twelve bytes off
-- the stream, so more fuel than bytes is enough. watch_steps takes the number of rounds of the
-- watch thread. A loop over batches takes as much fuel as there are services. send_envelope takes
-- fuel for its calls of itself, of which two in each other are enough. The loops that write to and
-- read from a client's socket take as many rounds as there are bytes. The other loops are
-- structural.
--
-- Where the program reads the clock, the readings are arguments, one for each reading. The order in
-- which C++ iterates over a hash map is the order of the association list.
--
-- Not modelled: sockets, threads and locks, the Redis, MariaDB and etcd clients, the generated
-- protobuf code, the relay, the IPC node service, login and messages at the game process, the
-- configuration of applications, the loader and the simulated client. The checks of the services
-- for missing dependencies are left out, since they are all set when the services are built. Each
-- handler of a gate runs alone; a game process that answers before its request is noted is not seen.
-- What RedisIncrement and MariaExecute do is left out.
pub mod Application
pub mod Gate
pub mod Base
pub mod Examples
pub mod Ipc
pub mod Storage
pub mod Game
