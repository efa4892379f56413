-- ===== src/Ode.antt =====
-- ilink/iolink_ode.c and ilink/iolink_ode.h: on-request data exchange, the acyclic read and write
-- requests of a client to a device.
pub mod State
pub mod Actions
pub mod Table
pub mod Jobs
pub mod Api
pub mod Termination
pub mod Answers
pub mod ReadCnf
mod Examples
