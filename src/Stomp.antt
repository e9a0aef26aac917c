-- ===== src/Stomp.antt =====
-- stompserver/: frames and configuration, the connection of one client, and the server.
pub mod Frame
pub mod Config
pub mod Connection
pub mod Server
mod Tests
