-- ===== src/Cm.antt =====
-- ilink/iolink_cm.c and ilink/iolink_cm.h: the configuration manager, which takes the client's
-- configuration of a port, starts the port and reports its status.
pub mod State
pub mod Parameters
pub mod Actions
pub mod Table
pub mod Jobs
pub mod Api
pub mod Termination
pub mod Answers
pub mod Config
pub mod Unknown
pub mod Startup
pub mod Assertions
mod Examples
