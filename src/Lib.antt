-- ===== src/Lib.antt =====
-- The Quack RPC extension of DuckDB: a server that runs queries for remote clients over HTTP, and
-- the client side that attaches such a server as a database.
--
-- A client turns a `quack:` URI into the address of an HTTP server, sends a connection request with
-- its token, and is given a session id. On its session it sends PREPARE, which runs a query and
-- answers the first batch of chunks of the result, then FETCH for the batches that follow, APPEND
-- to insert a chunk into a table, and at last a disconnect message. The server reads the header of
-- each message, looks up the session, asks the authentication or authorization callback, which is a
-- SQL function named by a setting, and runs the handler of the message type.
--
-- Uri is src/quack_uri.cpp and src/include/quack_uri.hpp: `quack_uri` is the constructor, in its
-- steps `normalise`, `parse_ipv6`, `parse_port` and `finish`. Text is the part of the C++ library
-- that it uses (`find`, `substr`, `stoi`, `to_string`), and an interface for DuckDB's StringUtil
-- with laws; Text.Reference is an instance that satisfies them, for the examples.
--
-- Message is src/include/quack_message.hpp, src/quack_message.cpp and
-- src/serialize_quack_message.cpp: a message is a header and a `Body` with one constructor for each
-- class. Message.Wire has the Serialize and Deserialize methods over an interface for DuckDB's
-- binary serializer with laws, and Message.Tokens is an instance of it.
--
-- Server is src/quack_server.cpp, src/include/quack_server.hpp and src/quack_log.cpp. Server.Engine
-- is the interface of the functions of DuckDB that are called; `QuackServer` and `QuackConnection`
-- are the fields of the classes, and a method of the server passes them on, with what it did to
-- them before it threw. Server.Sessions has tokens and the table of connections, Server.Batch the
-- function CreateBatch, Server.Requests the handlers on one connection, and Server.Handle the
-- functions HandleMessageInternal (`dispatch`) and HandleMessage. A connection object is changed in
-- place, so the changed object is stored back into the table. Server.Outcome lists every way in
-- which a message can change the server, and the proofs on sessions rest on it. A run (Server.Runs)
-- is any sequence of messages, with the database changing or closing in between.
--
-- Client is src/quack_client.cpp and src/include/quack_client.hpp: one request, and the cache of
-- clients of a connection. Client.Host is the interface of HTTP, log, secrets and extensions, and
-- Client.Served puts a client and a server together.
--
-- Scan is src/quack_scan.cpp and src/include/quack_scan.hpp. Scan.Remote is what a scan uses of a
-- connection, with an instance for the client (`client_remote`); Scan.Session has an instance that
-- is one session of the server whose callback allows every request. Scan.Bind and Scan.Init make
-- the bind data and the states, `quack_scan` in Scan.Loop is one call, and Scan.Reader makes the
-- calls of one thread as DuckDB does. Scan.Threads lets threads make calls in any order, and
-- Scan.Ledger is the abstract ledger of numbered batches that they keep.
--
-- Storage is an attached database. Storage.Transaction is src/storage/quack_transaction.cpp, a
-- transaction that starts on the server with its first query, and Storage.Manager the table of
-- transactions of src/storage/quack_transaction_manager.cpp. Storage.Insert and
-- Storage.CreateTableAs are src/storage/quack_insert.cpp. Storage.CatalogSet is
-- src/storage/quack_catalog_set.cpp, a set of entries; Storage.Schema is
-- src/storage/quack_schema.cpp and src/storage/quack_view.cpp, a schema with its tables, views and
-- built-in function; Storage.Load is src/storage/quack_table.cpp and the set of schemas, which are
-- made of the rows that the server lists; and Storage.Catalog is src/storage/quack_catalog.cpp.
-- Storage.Entries has the entries and the interface of DuckDB's parser, binder and texts of
-- statements. Optimizer is src/storage/quack_optimizer.cpp.
--
-- Listen is the table of listening servers: src/quack_http_server.cpp (Listen.Http, over an
-- interface for the HTTP library), src/quack_storage.cpp (Listen.Table) and
-- src/quack_start_stop.cpp (Listen.Functions). Listen.Routes has the routes of the HTTP server,
-- Listen.Loopback a client whose POSTs go to them, and Listen.Requests and Listen.Session the
-- requests of such a client on a session. Extension is src/quack_extension.cpp: the comparison of
-- tokens, and in Extension.Config secrets, settings and `quack_identify`.
--
-- Numbers are natural numbers. The batch index counts modulo 2^64, and FETCH is modelled for an
-- index below 2^64 - 1, since `optional_idx` throws at this one. A port is in its range by a
-- theorem, and a parsed integer is in the range of `int` or an exception. The loop of CreateBatch
-- recurses on the number of chunks that still have room. A client that reads a result has fuel for
-- its FETCHes, and the theorem on it asks for more fuel than the result has chunks, which is enough
-- as every FETCH with a positive batch size takes at least one. The loop of QuackScan has fuel for
-- its rounds, and two rounds are enough on a session of the server, by a theorem. A call of
-- QuackScan is one step of its thread: two threads interleave between calls, and not within one.
--
-- Not modelled: the mutexes, since messages are handled one after the other; the end of the threads
-- of the HTTP server, and what runs at the same time as they; the functions that only throw a
-- NotImplementedException; the plan functions; the registration of functions; and the code of
-- DuckDB itself, which is an argument.
pub mod Prelude
pub mod Text
pub mod Uri
pub mod Message
pub mod Server
pub mod Client
pub mod Scan
pub mod Storage
pub mod Optimizer
pub mod Listen
pub mod Extension
