-- ===== src/Ecocute.antt =====
-- The EcoCute water heater over ECHONET Lite: src/hedp/adapters/ecocute.
pub mod Echonet
pub mod Maps
pub mod State
mod Examples
