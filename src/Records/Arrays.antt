-- ===== src/Records/Arrays.antt =====
-- The framed arrays of crates/casacure/src/record.rs.
pub mod Reader
pub mod Writer
pub mod Encoding
pub mod RoundTrip
