-- ===== src/Motion.antt =====
-- Motion control (src/MotionControl.c) and the services that start, stop and feed it.
pub mod Mode
pub mod Started
pub mod Stop
pub mod Stopped
mod Tests
