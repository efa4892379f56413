-- ===== src/Ds.antt =====
-- ilink/iolink_ds.c and ilink/iolink_ds.h: data storage, which keeps a copy of a device's
-- parameters in the master and writes it back to a replaced device.
pub mod State
pub mod Requests
pub mod Actions
pub mod Table
pub mod ReadDone
pub mod Jobs
pub mod Api
pub mod Termination
pub mod Store
pub mod Upload
pub mod Session
pub mod Restore
pub mod Replay
pub mod Download
pub mod IndexList
pub mod Safety
pub mod SafeJobs
pub mod Assertions
pub mod Stuck
pub mod ParServ
mod Samples
mod Examples
