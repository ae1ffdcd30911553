-- ===== src/Http.antt =====
-- src/src/http/server: a server for requests and for WebSocket connections, and its transactions.
pub mod WebSocket
pub mod Server
pub mod Transaction
pub mod Sessions
