-- ===== src/WebSocket.antt =====
-- src/tcpkali_websocket.h and src/tcpkali_websocket.c: WebSocket frame headers (Frame) and the
-- detection of an upgrade request in what a client sends (Detect).
pub mod Frame
pub mod Detect
mod Tests
