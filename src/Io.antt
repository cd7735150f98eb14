-- ===== src/Io.antt =====
-- The I/O services of src/ServiceReadWriteIO.c.
pub mod Ranges
pub mod Access
pub mod Service
pub mod Addresses
pub mod Handlers
mod Tests
