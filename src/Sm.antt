-- ===== src/Sm.antt =====
-- ilink/iolink_sm.c and ilink/iolink_sm.h: system management, which starts a device, compares it
-- with the configuration of its port and brings it into operation.
pub mod State
pub mod Params
pub mod ValueList
pub mod Requests
pub mod Actions
pub mod Table
pub mod Checks
pub mod DeviceData
pub mod Jobs
pub mod Api
pub mod Termination
pub mod Checked
pub mod Compatible
pub mod Identity
pub mod CheckedJobs
pub mod CheckedWrites
pub mod CheckedReads
pub mod CheckedRuns
pub mod Octets
pub mod Stuck
mod Examples
