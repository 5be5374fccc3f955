-- ===== src/Net.antt =====
-- pkg/net: the file description that client and server exchange, and the two ends of the stream.
pub mod File
pub mod Sender
pub mod Handler
pub mod Dial
pub mod Metadata
