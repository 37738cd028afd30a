-- ===== src/Lib.antt =====
-- A verification library for the chat programs of this repository: the servers, the router that knows
-- which of them is the primary, and the client of a user. Paths are from the repository's root.
--
-- How the parts work together. A server registers with the router (SET_PRIMARY_IF_NOT_EXISTS); the first
-- is the primary, the others connect to it as backups (SET_BACKUP). A client asks the router for the
-- primary (GET_PRIMARY), connects, and sends PROFILE, FOLLOW, SEND and CLOSE_CONN. The primary handles
-- each packet and passes it on to its backups, which handle it without a connection. A backup whose
-- primary is gone makes itself the primary (SET_PRIMARY), and the clients connect to it.
--
-- Files and code.
-- Module Base, with its children: the library's names, lists and texts over native numbers, `int`, `std::map`
--   as a list sorted by its keys. A text is a list of bytes.
-- Module Bytes: `memcpy` with its bounds, numbers in memory, texts up to a zero byte.
-- Module Packet (commons/Packet.h, commons/Packet.cpp): `toBytes` is `to_bytes`, `fromBytes` is `from_bytes`,
--   over lists of bytes; `none` is an access outside the buffer. Layout and RoundTrip: the
--   proofs. Methods: a packet object and calls of its methods.
-- Module Exec: programs over a state. A call returns, ends its thread or the process (`exits`), waits,
--   throws with its state, or runs into undefined behaviour (`fault`).
-- Module Connection (commons/ClientConnection.h, commons/ClientConnection.cpp, and the messages of commons/Connection.cpp):
--   `send_packet`, `receive_packet`, `is_closed`, `close`. What `recv` returns is an argument, of type
--   `Recv`. `unpack` is the receiving in a program: it may throw, where `new` refuses a size. Delivery: the proofs. Pieces: one `recv`
--   that returns a part of a message. Methods: all calls of the public methods, one after the other.
-- Module System: the calls of the operating system, with what they return as a parameter. System.Listener
--   (commons/Server.h, commons/Server.cpp): the constructor is `start`, `waitClient` is `wait_client`, the loop around
--   it `accept_loop`. System.Connection (commons/Connection.h, commons/Connection.cpp): the outgoing connections.
-- Module Address: `find`, `substr` and `stoi` where server/main.cpp and client/main.cpp take "addr:port" apart.
-- Module Server.Inbox (server/Inbox.h, server/Inbox.cpp) with its Queue, Server.Profile (server/Profile.h,
--   server/Profile.cpp) with its Methods, Delivery and Count.
-- Module Server.World: the state of the server process. Profiles are objects in a heap, a pointer is a place
--   in it or null, so that an object that several others follow is one object.
-- Module Server.ProfilesManager (server/ProfilesManager.h, server/ProfilesManager.cpp), Server.Document (the
--   document of `toJsonFile`), Server.Registry (map and objects fit together), Server.Graph (the view
--   of names without pointers; Graph.Restore and its children: `toJsonFile` and then `fromJsonFile`).
--   ProfilesManager.Local is about all that sends, closes or stores, Keeps about
--   the registry, Each and Sessions about every object, Quiet about the lock, Broadcast
--   about `sendToFollowersOf`. Methods: calls of all
--   methods.
-- Module Server.ProfileAccessController (server/ProfileAccessController.cpp): the methods between request and
--   release for one caller; Methods has calls of all of them, ReadersWriters the lock with all its
--   threads as a step relation: Counts and Exclusion have its invariant, Settle, Progress and Finish how far
--   its threads come, Calls the steps that the functions of one caller make.
-- Module Server.ServerList, Server.Election and Server.Main (server/main.cpp): `processPacket` is
--   `process_packet`, `fromClient` is `from_client`, `receiveAlive` is `receive_alive`, `main` up to the
--   connection to the primary is `find_role`. Main.Invariant is the interface between the manager's
--   operations and the threads, which Main.Packets and Main.Threads take as a parameter and Main.Keeps
--   fills for the registry and for the limit of the sessions. Main.Lock: the lock while a packet is
--   handled. Main.Send: SEND, its followers and backups. Main.Rejoin: a client that comes from
--   another server. Main.Overtaken: two threads that handle packets and pass them on.
--   Main.Waiting: a message that waits on a backup. Main.Propagation: the list of the servers.
--   Main.Replication: what a packet does to the graph of names. Main.Silent and Main.Passing: what the
--   primary sends for it; Main.Receipt: what a backup makes of that; Main.Replicas: both together.
-- Module Server.Start (server/main.cpp): `main` is `main`, with the globals, `sendAlive` and the signal handler.
--   Takeover: when a server opens its port. Threads: all threads from the start on.
-- Module Router (router/main.cpp): `fromClient`, and all packets in the order in which they are handled.
--   Router.Start: `main`.
-- Modules Command and Client (client/main.cpp): `toServer` is `to_server`, `fromServer` is `from_server`, `updateConn` is
--   `update_conn`. Client.Start: `main`. Client.Reconnect: what happens when the server is gone.
-- Module Post: a post from the client of its author through the server to the client of a follower.
-- Module Failover: a client from a server that is gone to the one that takes over.
-- Module Tests: states, runs and the instances of the theorems.
--
-- Bounds and fuel. `size_t` and `time_t` are 8 bytes in memory, a port wraps at 2 ^ 16, `stoi` fails outside
-- 32 bits. The loops over connections run over the list of what `recv` returns and wait at its end. The
-- loop of the inbox has as fuel its number of packets, which is what it pops. The loop of the user's
-- lines has its rounds as fuel, since it need not end; a session of commands needs one round a line.
-- The accept loops and `sendAlive` never end: their rounds are their fuel. The lines of `main` behind
-- such a loop are never reached: the model of `main` waits in the loop.
--
-- Parameters. The JSON library is the record `Json`, with what the server uses of it. What `time` returns,
-- who listens at an address and what the router answers are fields of the states. Functions of `World`
-- run without interruption by another thread: the threads together are in ReadersWriters, in
-- Server.Main.Overtaken, which has two threads between two
-- calls, and in the router's `handle_all`.
--
-- Simplifications. A message that is sent does not fail: the programs drop what `send` returns, and the
-- SIGPIPE that ends a process which sends to a peer that is gone is left out. `new` refuses an array
-- that is longer than any may be; one that is only too long for the memory at hand counts as given, and
-- the read behind it then leaves the buffer. `main` of the client reads the user's lines before the packets of the server. Threads
-- of a server run up to their end or to where they wait, one after the other. `signal` is left out: a
-- handler is a definition of its own.
--
-- Not modelled: lib/json.hpp, a copy of another library; the output to the screen, but for the messages that
-- the client shows and the numbers of `sendAlive`; memory that is never freed; the closing of the sockets
-- that the server has opened to the router and to its primary, which no other code looks at.
pub mod Base
pub mod Bytes
pub mod Packet
pub mod Post
pub mod Failover
pub mod Exec
pub mod System
pub mod Connection
pub mod Address
pub mod Server
pub mod Router
pub mod Command
pub mod Client
mod Tests
