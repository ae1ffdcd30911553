-- ===== src/Tcp.antt =====
-- src/src/tcp: framed messages over a byte stream.
pub mod Connection
pub mod Hearing
pub mod Server
pub mod Client
pub mod Exchange
