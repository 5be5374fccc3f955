-- ===== src/Lib.antt =====
-- torrxfer: a client that watches directories and streams their files over gRPC to a server, which
-- writes them below its media directory and keeps a record of each in a key-value store.
--
-- The program's parts and the files that model them (Go paths from the repository's root):
--
--   Base, Text, Decimal, FilePath: what the parts share. Byte strings with Split, TrimSpace and
--     the prefix functions; decimal numbers as strconv reads and fmt writes them; Clean, Join,
--     Base and Dir of path/filepath. `digits` runs on a fuel of 20, the number of digits of 2^64,
--     and `trim_left` on the length of its text; both suffice, as Decimal.RoundTrip and Text.Plain
--     use them.
--   Platform: the parameter that stands for Go's `time` and `crypto/sha256`; `IsRfc3339` states
--     the documented behaviour of a time's text that the record of a file relies on.
--   Disk: the file system by absolute path, with the calls that the system refuses. Disk.Writes
--     has what a write at an offset leaves in a file.
--   Net.File: pkg/net/file.go (RPCFile) and the message File of proto/server.proto.
--   Net.Sender: pkg/net/torrxferserverconnection.go, the goroutine of TransferFile. Net.Dial: its
--     NewTorrxferServerConnection and QueryFile. Net.Metadata: pkg/net/rpchelper.go.
--   Net.Handler: pkg/net/torrxferclientconnection.go, TransferFile and QueryFile on the server's
--     side over the interface ITorrxferServer, which is the record `TorrxferServer`.
--   Server.File: pkg/server/serverfile.go. Server.State: the state of pkg/server/server.go with
--     TransferFunction, Close, isFileActive, setActiveFile. Server.Query: QueryFunction.
--     Server.Writer: startFileWriteThread as a machine of steps. Server.Session: a server under
--     any sequence of calls and of thread steps; Access and Frame below it have what every such
--     sequence keeps, and Concurrent and Newcomer, over Beside and Interleaved, what
--     becomes of an upload among the calls of other clients. Server.Endpoint: the server as an implementation of the
--     interface of Net.Handler; Opening, Placed, Upload and NewFile below it follow a file
--     from the query over the sender, the call and the thread to the disk, and FirstReply, Settled
--     and Again what is replied before and after that. Server.Startup: RunServer, with
--     pkg/common/conf.go.
--   Signals: configureSignals of both pkg/client/client.go and pkg/server/server.go.
--   System: a job of the client (pkg/client/worker.go) against that server, from the description of
--     the file (QueryFile of pkg/net/torrxferserverconnection.go) to the job's decision; Decisions,
--     Stored and Arrival below it follow it to the file on the server and to the next job, Retry
--     and Leftover (with Server.Endpoint.Resumed) for a path where other content stands, and
--     Recovery for a record that cannot be read.
--   Commands: cmd/server/main.go, and cmd/client/main.go up to its loop.
--   Logging: pkg/common/logger.go, where the lines go.
--   Crypto: pkg/crypto/crypto.go, with encoding/pem and crypto/x509 as the parameter
--     `Certificates`. Paths: pkg/common/path.go; Paths.Match is filepath.Match for characters of
--     one byte, on a fuel of the length of the pattern, since each round takes some of it.
--   Db: internal/db/db.go over `Pogreb`, the parameter that stands for the store. Db.Calls has the
--     goroutine that counts the operations, with its channel and its mutex. Database is what the
--     server uses of it, with its laws in `IsLawful`.
--   Client.File: pkg/client/clientfile.go. Client.Connection: pkg/client/connection.go.
--     Client.Worker: doFileTransferJob of pkg/client/worker.go. Client.Watcher: the waiting thread
--     and handleFileEvent of pkg/client/filewatcher.go, which Client.Watcher.Events takes as one
--     step and Client.Watcher.Race in single steps between those of the threads;
--     Client.Watcher.Service: the watcher around them, with its end in Ending. Client.Launch: Run,
--     ConnectServer and WatchDirectory of pkg/client/client.go, with pkg/common/connectionconf.go.
--     Client.Transfer: transferToServers of pkg/client/client.go and the two goroutines that read
--     notifications; Client.Transfer.Shutdown: the goroutine that ends the client at a signal.
--     Client.Dispatcher: pkg/client/clientqueue.go and the loop of the workers, as a relation of
--     steps.
--   Client.Display: the progress bars of cmd/client/main.go, over the parameter `Progress`, and of
--     internal/client/ui.go the elements of the screen (Elements), the forms for a connection and
--     for a directory (ConnectForm, DirectoryForm), the table of log lines (LogTable), the
--     grid of the connections (StatusGrid), and the grid with the menu and the forms (Layout).
--     `Surroundings` and `GridLibrary` stand for what the forms and the grid call; `IsDocumented`
--     states what the library says of adding and removing an item.
--   Tests: a concrete platform, disk and store, runs of the model there, and the theorems at these.
--
-- How they interact. A job of the client asks the server about its file (QueryFile, through
-- Net.Handler to Server.Query), decides from the reply what to stream, and hands a pipe to the
-- sender (Net.Sender). The sender's requests come to Net.Handler, which gives each block to
-- TransferFunction; this wakes the writer thread at the first one and passes the block through
-- the pipe of Server.Writer. The sender's notifications go to the connection (Client.Worker) and to
-- the subscribers (Client.Transfer).
--
-- Conventions. A uint64 is a natural number with its wrap-around written out (`% 2 ^ 64`); an int64
-- that was made of one is read as negative from 2^63 on. A pointer to a file or to a connection is
-- its number. Goroutines are machines of steps: a schedule is a list of actions, and what holds for
-- every list holds for every interleaving. A send that has to wait is `none` or a flag, and
-- `log.Fatal` is the outcome `exits`. The calls of `Database` are those that return: the waiting in
-- them is in Db.Calls only, and a goroutine that waits there takes no further step. So it is with a
-- job that never returns (Client.Dispatcher) and with a subscriber's channel that is full
-- (Client.Watcher).
--
-- Bounds: channels have the capacities of the source (1000 counted operations, 100 jobs, 500
-- notifications, 5 updates, 10 files). Loops are structural recursion over blocks, results or
-- actions, so they need no fuel, apart from those named above.
--
-- Not modelled: the rendering of internal/client/ui.go, the flags of the commands (cmd) and the
-- settings of the logging library, which call libraries; the reading of the configuration by
-- envconfig and encoding/json; gRPC and its TLS, the delivery of signals and the lock file; the
-- resolution of symbolic links in CleanPath, whose answer is given; writes to a file by several
-- open handles at once; a file that stands where a directory has to be made, and the removal of a
-- directory that is not empty, for which the disk has to refuse the call; changes of a disk's
-- refusals during a run.
mod Base
pub mod Text
pub mod Decimal
pub mod Platform
pub mod FilePath
pub mod Disk
pub mod Net
pub mod Server
pub mod Signals
pub mod System
pub mod Db
pub mod Database
mod Tests
pub mod Client
pub mod Logging
pub mod Commands
pub mod Paths
pub mod Crypto
