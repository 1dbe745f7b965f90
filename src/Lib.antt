-- ===== src/Lib.antt =====
-- Verification of yes-you-CAN, a vehicle diagnostics platform: the transport of diagnostic messages
-- over CAN and Ethernet, the session state of an ECU and the services that it answers, trouble codes,
-- the transactions in which an ECU is written, the permit that every write has to present, and the
-- witness of a recorded trace.
--
-- The parts and the files that model them (paths from the repository's root):
--   Prelude, Text        what the other files share: tests, lists, strings as lists of code units
--   Bytes                packages/shared/src/bytes.ts
--   Can                  packages/transport/can/src/frame.ts
--   IsoTp                packages/transport/iso-tp/src/params.ts and connection.ts
--   Session              packages/protocols/uds/src/session-state.ts (timing.ts, services.ts, nrc.ts)
--   Dtc                  packages/protocols/uds/src/dtc.ts
--   Uds                  packages/protocols/uds/src/server.ts, services.ts, nrc.ts and timing.ts
--   Writes               packages/core/src/writes/transaction.ts, port.ts, coding.ts, adaptation.ts
--   Logging              packages/core/src/logging/integrity.ts
--   Safety               packages/core/src/safety/safety-manager.ts
--   Doip                 packages/transport/doip/src/message.ts
--   Vin                  packages/core/src/vehicle/vin.ts
--   Tests                the theorems at concrete inputs
--
-- Numbers are natural numbers and bytes are numbers below 256; a JavaScript bit operation is written
-- as division and remainder, which Prelude/Bits justifies. An exception is a value, an optional
-- property an Option.
--
-- An ISO-TP connection is two models that share their frames. IsoTp/Sender is `transmit` with the
-- functions that it awaits: the answers of the adapter and the flow control that arrives are the
-- lists of an `Environment`, and a run is the list of actions with an outcome. The loop of
-- `sendMultiFrame` has fuel, one more than the bytes that are left, and each round takes at least
-- one byte; Sender/Answered counts the answers that a run can take. IsoTp/Receiver is `handleFrame` on the state of IsoTp/Connection; a step returns the new
-- state and the effects that callers see. IsoTp/Request is the retry loop around both. The two ends
-- of a link meet in IsoTp/RoundTrip.
--
-- IsoTp/Slot runs the calls, the frames and the timers of a connection in any order; IsoTp/Ring is the
-- witness ring.
--
-- The session machine is its constant part, `Policy`, and its changing part, `Machine`; Session/Trace
-- runs it over lists of calls. The safety layer is one function for each precondition.
--
-- Writes/Transaction is `DiagnosticTransaction` by its methods; Transaction/Reach runs them over lists
-- of calls, each of which is over before the next; Transaction/Interrupted is a stage with what others
-- call while its body is awaited. Writes/Operation is the interface of an operation: its hooks are functions of the
-- transaction and of an environment E, which stands for the ECU, the connection and the clock and is
-- what a hook may change; `await port` is the clock going on while a stage is awaited, and the port
-- never reads another clock. The hook `describe` may throw; `outcomeOf` and `onAbort` do not, and no
-- hook calls the methods of its transaction. Writes/Port is `WritePort`; `run` is cut at its stages into one function
-- for each, with the environment, the permits, the audit log and the history in a `World`. The ids that
-- `createId` would make are arguments, and the texts that the safety layer makes of its findings are
-- parameters. Writes/Coding is the operation of coding on an ECU that is an interface; its reasons are
-- data that a parameter turns into text. Coding/Restore names what an ECU that stores its coding does.
-- Writes/Adaptation is the operation of adaptation in the same way; its numbers are a parameter, as the
-- numbers of JavaScript are floating-point numbers.
--
-- Uds/Server is the server of a virtual ECU: the fields that never change are `ServerOptions`, the
-- others `Server`, and W is the vehicle behind the closures of the options. A handler returns a
-- response, nothing, or the error that it throws; `handle` returns the payloads that it sends. The
-- service table is the branches of `serve`. Uds/Timing joins what the server answers to a session
-- request with what a client reads from it.
--
-- Logging/Integrity is the canonical form of a raw trace, its manifest and signature; the digest, the
-- signer, the verifier and the printing of a time are parameters.
--
-- Not modelled: sockets, serial ports, timers as such (a timer is the function that its callback
-- runs), logging and the text of messages, floating point, the transaction queue of a connection,
-- the UDS client, the operation that clears the fault memory, and the rest of the platform.
pub mod Prelude
pub mod Bytes
pub mod Text
pub mod Can
pub mod IsoTp
pub mod Session
pub mod Safety
pub mod Dtc
pub mod Doip
pub mod Tests
pub mod Vin
pub mod Writes
pub mod Logging
pub mod Uds
