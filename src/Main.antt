-- ===== src/Main.antt =====
-- ilink/iolink_main.c: the main thread that works off the jobs, the two pools that jobs come from
-- and go back to, and the client's functions.
pub mod Ports
pub mod Dispatch
pub mod Pools
pub mod Posters
pub mod Routes
mod Examples
