-- ===== src/Lib.antt =====
-- A verification library for the CANopen protocol stack of this repository (CANopenNode for the
-- eRob drives, in C).
--
-- The stack is a set of objects that one loop processes: the Object Dictionary holds the
-- parameters, reception callbacks leave a message or a flag in an object, and each object's
-- process function, called with the time that has passed, acts on it, sends messages through the
-- CAN driver and reports errors to the emergency object. Here each object is a record of its
-- fields, an operation is a function from record to record, and what leaves an object (a message
-- handed to the driver, a callback) is an event in the list that the operation gives.
--
-- Base      lists as C arrays, Boolean tests, machine words as native numbers with the wrap-around
--           written out, bit operations, and circular buffers of any element (Base.Ring)
-- Crc       301/crc16-ccitt.c: the table and the loop; Crc.Bitwise has the bit-serial CRC
-- Fifo      301/CO_fifo.c and CO_fifo.h: `CO_fifo_write` is `write`, `CO_fifo_altRead` is `alt_read`,
--           and so on; Fifo.Contents has the abstract queue of bytes
-- Od        301/CO_ODinterface.c: `OD_readOriginal` and `OD_writeOriginal` over a memory of bytes;
--           Od.Entries has `OD_find` and `OD_getSub`
-- Emergency 301/CO_Emergency.c: `CO_error` is `error`; Emergency.Process has `CO_EM_process`,
--           Emergency.Objects the entries 0x1003, 0x1014, 0x1015 and the status bits
-- Nmt       301/CO_NMT_Heartbeat.c: `CO_NMT_process` is `process`, with the emergency object as an
--           argument; Nmt.Steps has the sequences of calls
-- NodeGuarding 301/CO_Node_Guarding.c: NodeGuarding.Slave and NodeGuarding.Master; NodeGuarding.Polling
--           joins them over a bus
-- HbConsumer 301/CO_HBconsumer.c: it owns the emergency object that it reports to
-- Sync      301/CO_SYNC.c: likewise
-- Time      301/CO_TIME.c: reception, the clock and the producer
-- LssSlave  305/CO_LSSslave.c: reception and processing; what the application answers is an argument
-- Leds      303/CO_LEDs.c: `CO_LEDs_process`; Leds.Clock has the patterns as functions of the time
-- SdoServer 301/CO_SDOserver.c: reception and the access to the variables; SdoServer.Requests and
--           SdoServer.Process have `CO_SDOserver_process`, SdoServer.Channel the messages of a client
-- PpMode    example/pp_mode_control.c, the program that moves an eRob drive: SDO requests over the
--           socket; PpMode.Motion has `execute_position_move`, PpMode.Commands the rest of `main`.
--           The frames that arrive after each request are a list in its state.
--
-- Configuration: the default switches with the dynamic Object Dictionary, the callbacks and the
-- timerNext results; the heartbeat consumer has the callbacks for several events, SYNC and TIME the
-- producer; the SDO server has segmented transfers, no block transfer, and a buffer of 32 bytes.
-- Ten bytes of error status bits.
--
-- Fuel: `OD_find` has one more than the entries of the list, since each round takes one away from
-- the range; the loops of the circular buffer have one more than its size, since each round moves a
-- pointer that comes round after that many steps; the loop of the LEDs has the number of periods in
-- its timer. That it is enough is part of the theorems.
--
-- Not modelled: object pointers that are NULL, the initialisation of the objects from the Object
-- Dictionary (but what some initialisations leave), the calls that set callbacks, the locks round
-- single operations, and what the CAN driver returns, where no argument stands for it. The calls
-- by which CO_error signals a task are kept for the emergency object itself and left out in its
-- clients. The SDO client, PDO, LSS master, SRDO, fail-safe, gateway, storage and trace
-- components, CANopen.c, which calls them all, and the other files under example/ are not
-- modelled; of the motor program, nothing that prints, waits or reads the EDS file is.
pub mod Base
pub mod Crc
pub mod Fifo
pub mod Od
pub mod Emergency
pub mod Nmt
pub mod NodeGuarding
pub mod HbConsumer
pub mod Leds
pub mod PpMode
pub mod SdoServer
pub mod Sync
pub mod LssSlave
pub mod Time
