-- ===== src/Lib.antt =====
-- PoseBridge reads orientation sensors over BLE and USB, keeps what it measures for consumers, and
-- configures the sensors. This library models the parts of its core that have states and protocols.
--
-- Bytes come from a transport. `Parser::push` (crates/posebridge-core/src/protocol.rs) cuts them into
-- frames; frames with a calendar go through the sample clock (sample_clock.rs), poses into the motion
-- history (motion.rs), register replies to the battery (battery.rs) or to a register read. A register
-- read, an inspection and a command are explicit operations on one connection (device.rs). The client
-- submits settings as a sequence of such commands, each verified
-- (crates/posebridge-client/src/posebridge/configuration.rs). Poses go out as OSC packets (osc.rs,
-- dolby.rs), and a magnetic session collects field readings and follows the calibration switch (magnetic.rs).
-- The controller (controller.rs) owns one task at a time and the state that all of them share. The client
-- drives it from one worker (crates/posebridge-client/src/posebridge/service.rs): commands are queued, and
-- what the worker finds is shown in a view.
--
-- The files. In each, a definition has the name of its function, and a method of a type takes and
-- returns the state as a record.
-- - Prelude: tests, lists, results and integers, over the native natural numbers.
-- - Model, Model/Command, Model/Observation: errors, commands and observations of model.rs, and the
--   command encoders at the end of protocol.rs.
-- - Protocol/Calendar, Protocol/Frame, Protocol/Parser: the calendar, the frames and the parser of
--   protocol.rs. Readings stay the integers that come before the scale by a constant.
-- - SampleClock, Battery, Motion: the states of sample_clock.rs, battery.rs and motion.rs. Motion
--   leaves f64 as a parameter, since it only copies it.
-- - Device/Registers, Device/Exec, Device/Inspect, Device/Execute: the operations of device.rs. The
--   connection, the timers and a cancellation are an environment that is asked with the history of
--   what was done so far; an operation is a function of that history to a result and a longer one.
-- - Configuration, Configuration/Writes, Configuration/Apply: the settings, their writes and the
--   submission of configuration.rs.
-- - Osc, Osc/Sender: the pose packets and their sender of osc.rs. The OSC encoder, the
--   queries of a text, the cast to f32 and the socket are parameters, since they are other code.
-- - Pose, Pose/Mounting, Dolby: quaternions, Euler angles and mountings of pose.rs over the operations of
--   f64, which are a parameter, and the head tracker output of dolby.rs with its reference.
-- - Config: the configuration of model.rs and its validation. Model/Text is what that asks of a text.
-- - Controller: the shared state of controller.rs and what it shows. Beneath it, Publish has the
--   sessions and poses, Frames and Receive a read of `pump`, Output `emit` and the queries, Control the
--   device commands, Lifecycle, SetConfig, Prepare and Start the methods of `Controller`, Reconnect the
--   loop of `run`, Simulate its simulated source, Pump the timers of `pump`, and FullRate the guard of
--   full inertial frames. Wire, Monitor and Poll drive a magnetic session. Each lock is one step; a worker is
--   what it leaves, and sockets, connections and new identifiers are inputs.
-- - Naturals: operations over the natural numbers, for the examples.
-- - Magnetic, Magnetic/Window, Magnetic/State, Magnetic/Receive: the state of a magnetic session of
--   magnetic.rs and one read of its connection. A field is the register
--   integer with an exact fraction as its scale.
-- - Client, Tracking, Headset, Coverage, Sweeps: of crates/posebridge-client/src, the devices of
--   posebridge.rs, the sample of tracking.rs, the mounting check of posebridge/mounting.rs, the kept readings
--   of posebridge/coverage.rs and the magnetic session of posebridge/magnetic.rs, which takes what a panel
--   draws of a sweep as a parameter.
-- - Service: the client service of posebridge/service.rs. Beneath it, Configure checks commands and makes
--   configurations, Latch keeps the device that may be calibrating, Worker, Desk, Handle, Poll and Show are
--   the loop of `worker`, and System and Events put the locks of the worker and the commands of other threads
--   in sequence. A handler of the worker gives a list of writes, each of one lock, so that commands can be
--   sent between them.
-- The Laws, Invariant, RoundTrip, Reply, Order, Guards, Runs, Rate, Sequence, Reference, Extremes,
-- Phases, Records, Account, Accepted, Rotation, Session, Counts, Epoch, Conclude, Exclusive,
-- Steady, Backoff, Spacing, Cleanup, Settled, Accounts, Stops, Remember, Choices, Revealed, Kept,
-- Latched, Steps, Staged, Acquire, Tracks, Numbered, Heard, ReadBack, Queued, History and Dates beneath a file are its
-- theorems, and the Examples run it on concrete data, for the controller that of Sample.
--
-- Bounds. Instants and durations are nanoseconds, with saturating differences as subtraction on the
-- natural numbers and the clamp to i64 written out. The counters of 64 bits are natural numbers. The
-- loop of the parser has the length of its buffer as fuel, which is enough because each round takes a
-- byte at least. A register read takes the list of what arrives until its deadline, and the polls of
-- a calibration are as many as the environment says fit into eight seconds.
--
-- Not modelled: the text of messages and of mountings, serialization, telemetry, sockets and devices
-- (transport.rs, ble_link.rs, timing.rs), the threads of controller.rs, the C interface, the command line,
-- the geometry of coverage.rs and the drawn pages of the client. A poll of the client worker reads the
-- clock once.
pub mod Battery
pub mod Client
pub mod Config
pub mod Configuration
pub mod Controller
pub mod Coverage
pub mod Device
pub mod Dolby
pub mod Headset
pub mod Magnetic
pub mod Model
pub mod Motion
pub mod Naturals
pub mod Osc
pub mod Pose
pub mod Prelude
pub mod Protocol
pub mod SampleClock
pub mod Service
pub mod Sweeps
pub mod Tracking
