-- ===== src/Miele.antt =====
-- The Miele appliances: src/hedp/adapters/miele.
pub mod Sse
mod Examples
