-- ===== src/Lib.antt =====
-- The IO-Link master stack of src-master-application/ilink.
--
-- A main thread works off jobs one after the other. The layers above the data link layer post them
-- and give each a callback; the callbacks drive a state machine for every layer and port. The
-- client's requests (SMI services) are posted as jobs too, and are answered through one callback
-- of the client.
--
-- The files, with the code's paths from the repository's root:
--
-- Base    the names that all files share, tests on numbers, lists, words
-- Types   the enumerations and packed argument blocks of iolink.h, iolink_types.h and iolink_main.h
--         in src-master-application/include/ilink
-- Fsm     the table-driven loop that each layer spells out (`iolink_ds_event` and its like), as one
--         machine over the states, events and ports of a layer
-- Main    src-master-application/ilink/iolink_main.c: the client's functions, the routing of jobs by
--         the main thread, the pools of jobs, and the types under which the layers post them
-- Al      src-master-application/ilink/iolink_al.c: the application layer, with the reads and writes
--         of a device, its events, and the process input
-- Sm      src-master-application/ilink/iolink_sm.c: system management, with the start of a device,
--         its comparison with the configuration and the choice of its message sequence type
-- Dl      src-master-application/ilink/iolink_dl.c: the data link layer's handlers of on-request
--         data, ISDUs, commands, events and process data, and its services for the layers above
-- Cm      src-master-application/ilink/iolink_cm.c: the configuration manager, with a client's
--         configuration of a port, its start and its status
-- Ds      src-master-application/ilink/iolink_ds.c: data storage, the backup and restore of a
--         device's parameters
-- Ode     src-master-application/ilink/iolink_ode.c: on-request data, a client's reads and writes of
--         a device
-- Pde     src-master-application/ilink/iolink_pde.c: process data, over an interface for what lies
--         below it
--
-- In the folders of Cm, Ds, Ode, Al and Sm, State has the layer's record and the calls it makes, Actions
-- the actions of the transitions (with Cm/Parameters and Sm/Requests), Table the transition tables
-- (in Al both are Od and EventSet), Jobs the callbacks (with Ds/ReadDone, Sm/Checks and
-- Sm/DeviceData) and `run`, the main thread on a list of jobs, and Api the functions
-- that post jobs. The names are those of the code in lower case, with the layer's prefix dropped
-- from constructors and fields.
--
-- The configuration manager starts data storage and the exchange of data through their functions,
-- which post jobs, and data storage tells it that it is ready or failed in the same way.
--
-- A port is a layer's own record together with the calls that it made of other layers and of the
-- client, the latest first. A write request in this log comes with the bytes that its pointer points
-- to. The job of a client's request is kept by value where the code keeps a pointer to it. A failed
-- CC_ASSERT is a call in the log, and the code goes on, as it does where assertions are compiled
-- out. Reads past the end of an array give 0 or nothing, and writes past its end change nothing.
--
-- The loops of the state machines have a bound on their rounds: one in Sm and for the events of Al,
-- two in Cm, Ode and for the requests of Al, and four in Ds;
-- the theorems on `Settles` show that it is reached in no state. The loop over an index list has 70
-- rounds, as in the code. All other functions are total without a bound.
--
-- In the folder of Dl, State has the records of the handlers and the calls that the layer makes, Isdu
-- the checksum and the header of an ISDU, Requests OD_req and PD_req, one file each handler, and Api
-- the services. A handler runs on a message that is to be sent or that has been answered: the
-- message handler, which sets these triggers, is not modelled, so Dl/Sending and Dl/Receiving give a
-- run as the list of the device's replies. A reply comes with its octet of the checksum, whose event
-- flag is indicated before the handler of on-request data runs, as iolink_dl_message_h_sm_await_reply16
-- does in OPERATE; the process data and their status, which that function treats in between, are left
-- out. The clock is a field of the port, and what C leaves undefined, an access beyond the end of an
-- array or a division by zero, is a call in the log.
-- Dl/Decoding reads a request as a device does, and Dl/Output fills the interface that Al has for the
-- process data below it.
--
-- Logging is left out. Not modelled: the mode handler, the message handler and the thread of the data
-- link layer, the physical layer and its driver (hardware), the operating system layer, and the C++
-- application with its TCP server.
pub mod Base
pub mod Types
pub mod Fsm
pub mod Al
pub mod Cm
pub mod Dl
pub mod Ds
pub mod Main
pub mod Ode
pub mod Pde
pub mod Sm
