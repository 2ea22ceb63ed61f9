-- ===== src/Data.antt =====
-- src/tcpkali_data.h and src/tcpkali_data.c: escape sequences in the user's messages (Unescape)
-- and printable forms of data (Printable). `read_in_file` is input and output only.
pub mod Unescape
pub mod Printable
pub mod RoundTrip
mod Tests
