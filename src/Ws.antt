-- ===== src/Ws.antt =====
-- src/src/ws: messages over WebSocket.
pub mod Connection
pub mod Client
pub mod Server
