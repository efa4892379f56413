-- ===== src/Pde.antt =====
-- ilink/iolink_pde.c and ilink/iolink_pde.h: the exchange of process data, which answers a client's
-- requests at once, in the client's thread.
pub mod State
pub mod Requests
pub mod Answers
mod Examples
