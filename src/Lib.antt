-- ===== src/Lib.antt =====
-- webcb, a clipboard on the web: a client copies a stream of bytes to a server, which keeps it in a
-- badger database under a version, and any client pastes the latest version back.
--
-- The parts, and the files that model them:
--
-- Stream: internal/grpc. `Reader` (reader.go) turns chunks of any lengths into full buffers,
--   `Writer` (writer.go) turns bytes into chunks of one length. `Receiver` and `Sender` are records
--   of operations, which the server and the client fill. `Read` and `Write` are loops on a number
--   of rounds: `Write` is given one more than it has bytes, since every round but the last moves a
--   byte; `Read` takes the number as an argument, and more rounds than chunks are enough.
-- Storage: storage. `Keys` has the keys of badger.go; `Badger` is what the code uses of the
--   database, as operations with laws; `Batch` is batch_writer.go, `Write` and `Read` are
--   `WriteBatch` and `ReadBatch` of badger.go, `Gc` is gc.go, `Open` is `NewBadgerDB`,
--   `DropAll` and `Close` of badger.go and the ticks of the collector that it starts. A method that
--   changes the batch writer is a function from its state to a result and the new state (Base/Exec).
--   `Scan` has what an iteration over a prefix must be, `Write/Counting` what a batch's size says,
--   `Write/Locking`, `Write/Guarding` and `Write/Sparing` a copy with runs of the collector between
--   its entries.
-- Messages: proto/cp.proto, with streams as lists of what arrives, ended by `io.EOF`, and as a
--   sending operation.
-- Server: server. `Config` is option.go and the checks of `NewServer`, which uses Tls; `Streams` is
--   the two ends of the gRPC streams, `Handlers` the calls `Copy`, `Paste`, `Status` and `Clear` of
--   clipboard.go. A handler returns, with an error or without one, or panics, as the code does on a
--   stream that does not begin with a header and on a negative rate.
-- Client: client. `Options` is copyopt and pasteopt, `Streams` has `sendInfo` and the ends of the
--   streams of client.go, `Counter` its counters, `Copy`, `Paste` and `Calls` the calls. `Layers` is
--   what the code uses of sio and zstd: writers and readers that are stacked on a stream. The loops
--   take a number of rounds; more rounds than reads are enough.
-- Crypto: internal/crypto/kdf.go, with the libraries that it calls as operations.
-- Transfer: a copy and a paste from end to end, across client and server, and a paste after `Clear`.
-- Command: command. `Ui` is `formatDuration`, `Dial` the connection that clear.go, copy.go, paste.go and
--   status.go share, `Calls` their actions, `Serve` server.go and `Start` and `Stop` of
--   server/server.go, `Codec` grpc_codec.go. An action is a list of what it does and an error. The
--   loop of `formatDuration` takes a number of rounds: 13 are enough for a duration that is not negative.
-- Tls: internal/tls/tls.go.
-- Base: shared types and lemmas: tests and lists over native numbers, errors, results, byte strings
--   and Go's integers. Tests: a database in memory that satisfies every law, and runs.
--
-- Bytes are natural numbers, which no operation computes with, and lengths are natural numbers
-- without a bound: the code's counters are bounded by the lengths of slices. Durations and rates are
-- integers. Badger, protobuf, ULIDs, gRPC, sio, zstd, scrypt, hkdf, the terminal, the file system
-- and Go's certificate parsing are parameters; what is assumed of them is what their documentation
-- says (Storage/Badger, Storage/Batch/Laws, Storage/Read/Laws, Messages, Client/Copy/Layered,
-- Client/Paste/Opened).
--
-- Not modelled: the table of flags and the coloured printing of the command line, which are data and
-- output for libraries; the times of a copy's summary; expiry; and the mutexes. `WriteBatch` and `ReadBatch` each see a database that only they change, but for runs of the
-- collector between the entries of a copy (Storage/Write/Sparing), each as one step. A batch reaches the
-- database when it is flushed, and the commits that badger makes before, of a batch that outgrows a
-- transaction, are not seen. The limits on received messages are numbers that gRPC would enforce.
pub mod Base
pub mod Stream
pub mod Storage
pub mod Messages
pub mod Server
pub mod Client
pub mod Tls
pub mod Crypto
pub mod Transfer
pub mod Command
pub mod Tests
