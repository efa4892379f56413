-- ===== src/Dl.antt =====
-- The data link layer, ilink/iolink_dl.c: the handlers of on-request data, ISDUs, commands, events
-- and process data, and the services that the layers above call.
pub mod State
pub mod Isdu
pub mod Requests
pub mod IsduAnswers
pub mod IsduHandler
pub mod Command
pub mod Events
pub mod OdHandler
pub mod PdHandler
pub mod Api
pub mod Encoding
pub mod Decoding
pub mod Segments
pub mod Sending
pub mod Transfer
pub mod Delivered
pub mod Reception
pub mod Receiving
pub mod Received
pub mod FirstSegment
pub mod Response
pub mod Stuck
pub mod Output
mod Examples
