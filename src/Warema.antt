-- ===== src/Warema.antt =====
-- The WAREMA WMS stick: src/hedp/adapters/warema/protocol.py.
pub mod Protocol
pub mod Stream
mod Examples
