-- ===== src/Lib.antt =====
-- A model of clibcdc, the C++ library that talks to IQRF devices over the CDC protocol: a
-- client calls a method of `CDCImpl`, which encodes a command, sends it to the serial port and
-- waits for the response; a reading thread collects bytes from the port, takes messages off
-- them with `CDCMessageParser` and hands each to the waiting client or to a listener.
--
-- The parts, with the files that model them (paths of the source are from the root of the
-- repository):
--
--   Types: the enumerations and structures of include/CDCTypes.h, include/CdcInterface.h and
--     include/CDCMessageParser.h.
--   Parser: src/CDCMessageParser.cpp. Transitions holds `initTransitionMap` and `doTransition`,
--     States the sets of states and `initStatesInfoMap`, Special the functions for the special
--     states (`processUSBInfo`, `processTRInfo`, `processAsynData`, `processPMRespData`),
--     Machine the loop of `parseData`, Extract the `getParsed` methods. Grammar states the
--     messages without the automaton; Sound and Complete relate the two, and Readings relates
--     it to the `getParsed` methods.
--   Driver: src/CDCImpl.cpp, src/CDCImplPri.h and the Linux port layer src/CDCImpl_Lin.cpp.
--     State holds the shared members, Command `commandToBuffer`, Receive the reading thread,
--     Send `sendCommand`, Exchange `processCommand`, Api the public methods. Stream and
--     Stream/Replies are about sequences of messages, Thread about the reading thread on any
--     bytes, Sending and Encoding about commands on their way out, Cycle about commands and
--     their responses, Calls about what the methods return, Stale about a response that comes
--     too late. Windows is the other port layer, src/CDCImpl_Win.cpp, with its reading thread,
--     `sendCommand` and `waitForMyEvent`: Windows/Left and Windows/Survival are about its
--     thread on any bytes, Windows/Lines compares that with the thread of Linux, Windows/Resets
--     and Windows/Fresh are about commands and their responses.
--   Hex: examples/PgmHex/PgmHex.cpp. Hex itself has `iqrfPgmReadHEXFileLine`, Hex/Image the
--     structure `PrepareMemBlock` and `iqrfPgmMoveOverflowedData`, Hex/Block
--     `iqrfPgmPrepareMemBlock`, whose loop has the size of the file and two as its fuel: a
--     round that goes on has read a line. Hex/Bounds and Hex/Ends are about the accesses to the
--     arrays and the end of the loop, Hex/Progress and Hex/Less about what a prepared block
--     leaves to do, Hex/Refusal and Hex/Stop about where no block is given, Hex/Eeprom about
--     the size of a block for the internal EEPROM, Hex/Copy, Hex/Placement and Hex/Flash about
--     what the image holds.
--   Examples: the programs of examples/ as clients. Device is what they ask of a `CDCImpl`,
--     with the frame that they share, over a state of any type; Trcnfg is PgmTrcnfg, Memory is
--     ReadMemory, Plugin is PgmIqrf, Programmer is `main` of PgmHex. Temperature is
--     ReadTemperature. Session says which calls a program has made, Lines and Uploads are about
--     plugin files, Programmed about the end of PgmHex, Received and Requests about the
--     listener and the requests of ReadTemperature.
--   Base: what the modules share: Boolean tests and lists on the native numbers, machine words,
--     results, and `std::map` as an association list. Tests: runs on concrete inputs.
--
-- Numbers are native. `unsigned int` is taken modulo 2^32 and `size_t` modulo 2^64 (`wrap32`,
-- `sub32`, `sub64`), written out wherever the source computes in them. Bytes are numbers; where
-- it matters that they are below 256 a hypothesis says so. An exception is a value of `Error`;
-- `undefined` is an access that C++ gives no meaning.
--
-- Loops that the source ends by their data run on fuel. `parse_data` has twice the size of the
-- data and two rounds, since a special state need not move on but leads to one that does;
-- `process_all_messages` has the size of the buffer and one, since each message takes away at
-- least a byte; `read_pairs` has the room that is left in the line buffer; `send_bytes` has the
-- number of bytes and one, since a write that succeeds takes at least a byte; the loops of
-- PgmIqrf over characters and over lines have the size of the file and one; the loop of PgmHex
-- over blocks has twice the size of the file and one, since each block leaves less to do. Data
-- are taken to be below 2^31 bytes, so that positions fit `unsigned int`.
--
-- What stands behind the array of the upload states in memory, of which the source reads three
-- words, is a parameter `stray` of the parser. The operating system is a parameter: `PortApi`
-- for `select` and `write` on the port, `EventApi` for an event object, a list of `ReadEvent`
-- for what the reading thread gets until a wait ends. On Windows they are `WinPort` and lists
-- of `PortWait` and `ReadResult`, with the same `EventApi`, whose `clear` is `ResetEvent`. An
-- exception inside `readMsgThread` there carries the driver as it is by then, which the waiting
-- command goes on with; Receive has `left_by_messages` for what a failed signal leaves of it.
--
-- Not modelled: opening and closing of the port, the texts of exceptions, the JNI stub, the
-- program ReadTrIdf, the arguments, the opening of files and the output of the others, but for
-- what the listener of ReadTemperature prints, and the build files. A step of the reading
-- thread is atomic, so the mutexes are left out; the end event of the thread, which the
-- destructor sets, is left out too.
pub mod Base
pub mod Types
pub mod Parser
pub mod Driver
pub mod Hex
pub mod Examples
pub mod Tests
