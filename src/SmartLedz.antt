-- ===== src/SmartLedz.antt =====
-- The Smart LEDZ lighting gateway: src/hedp/adapters/smartledz.
pub mod Framing
pub mod Envelope
pub mod Messages
pub mod Reader
pub mod Commands
pub mod State
mod Examples
