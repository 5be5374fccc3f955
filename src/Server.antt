-- ===== src/Server.antt =====
-- pkg/server: the records of the files, the state of the server and its writer threads.
pub mod File
pub mod Writer
pub mod State
pub mod Query
pub mod Session
pub mod Endpoint
pub mod Startup
