-- ===== src/Worker.antt =====
-- One worker of src/tcpkali_engine.c: `struct loop_arguments` with its open connections, and the
-- callbacks of the event loop that open, serve, time out and close them.
pub mod Traffic
pub mod Connections
pub mod Rates
pub mod Close
pub mod Open
pub mod Chunk
pub mod Sending
pub mod Receiving
pub mod Events
pub mod Outcomes
pub mod Totals
pub mod Identity
pub mod Closed
pub mod Opened
pub mod Conserved
pub mod Served
pub mod Exit
pub mod Lifetimes
pub mod Loops
pub mod Latency
mod Tests
pub mod Counters
