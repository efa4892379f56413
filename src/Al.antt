-- ===== src/Al.antt =====
-- ilink/iolink_al.c and ilink/iolink_al.h: the application layer, which turns the requests of the
-- layers above into services of the data link layer, collects the device's events and keeps the
-- process input.
pub mod State
pub mod Errors
pub mod Od
pub mod EventSet
pub mod Jobs
pub mod Api
pub mod ProcessData
pub mod Termination
pub mod Server
pub mod Serving
pub mod Delivery
pub mod Told
pub mod Collecting
pub mod Reporting
mod Examples
