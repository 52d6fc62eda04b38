-- ===== src/Modbus.antt =====
-- The read-only Modbus TCP client for FusionSolar: src/hedp/adapters/fusionsolar/modbus_tcp.py,
-- modbus_collector.py and modbus_profiles.py.
pub mod Socket
pub mod Client
pub mod Collector
pub mod Profile
mod Examples
mod Readings
