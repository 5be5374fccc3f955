-- ===== src/Client.antt =====
-- pkg/client: the client's view of a file, a connection to a server, and the transfer jobs.
pub mod File
pub mod Connection
pub mod Worker
pub mod Watcher
pub mod Transfer
pub mod Dispatcher
pub mod Launch
pub mod Display
