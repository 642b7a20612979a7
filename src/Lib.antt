-- ===== src/Lib.antt =====
-- Verification of foobar-universal-multiroom, the foobar2000 component that plays to several network
-- speakers at once.
--
-- The program. The output plugin drives `MultiroomEngine` (components/foo_out_multiroom_bridge/core), which
-- checks PCM, counts frames on a `SyncClock` and passes each buffer with its timestamp to a `Transport`. The one
-- transport is `AirPlayTransport` (transports/airplay). It keeps the outputs that `AirPlayDiscovery` finds in an
-- `OutputRegistry`, asks `PacketScheduler` when each output is to get a packet, and hands the packets to
-- `AirPlaySessionManager`, which opens, feeds and closes one session per output through an
-- `AirPlayControlClient`. Speaker groups name sets of outputs in the component's configuration.
--
-- The files, each of which says which code it is about:
--   Base            shared names; bytes and strings, lists, integers, `std::map` as an ordered list, exceptions
--                   as values, sorting
--   Device          components/foo_out_multiroom_bridge/transport.h: the structs, and the interface `Transport`
--   Core/Volume, Core/SyncClock, Core/Scheduler, Core/Engine, Core/Registry, Core/Groups
--                   components/foo_out_multiroom_bridge/core: one module for each class or file, its theorems in
--                   the modules below it
--   AirPlay/Timing, AirPlay/Client, AirPlay/Loopback, AirPlay/Bootstrap
--                   airplay_timing.h, the client interface of airplay_rtsp.h, the loopback client of
--                   airplay_rtsp.cpp, airplay2_session.cpp
--   AirPlay/Session airplay_session.cpp: State (one session), Attempt (the work on one session), Visit (the loops
--                   over the sessions), Manager and Session itself (the methods); Invariant, History, Opening,
--                   OpenStep, OpenLoop, Enqueue and Closing hold theorems
--   AirPlay/Discovery
--                   airplay_discovery.cpp: Names, Packet, Response, Service, Identity and Browse, the class in
--                   Discovery itself; Parsing, Aliases, Reach and History hold theorems
--   AirPlay/Transport
--                   airplay_transport.cpp: State (the registry and the ids), Transport itself (the methods); Sync,
--                   Invariant, Outputs, Streaming, History and Writes hold theorems
--   Component/Fields, Component/OutputState, Component/Pairing
--                   multiroom_component_state.cpp: the settings that it stores of outputs and of paired receivers; Lines,
--                   Stored, Update, Selection and Saved hold theorems
--   Component/State
--                   multiroom_component_state.cpp: Shared (the members, the calls of the transport and of the engine),
--                   Control (the refresh worker and the control worker), Playback (opening, feeding and stopping),
--                   Opening (the whole open_playback_stream), Choices (outputs, volumes and groups), Notices
--                   (metadata, pairing, commands of receivers, failures, labels), Places and Threads (the workers and the
--                   playback thread side by side, event by event); EngineCalls, Setup,
--                   Opening, Choices/Activation, Notices/Commands and the modules below Threads hold theorems; Threads/Owed
--                   says, for these, when a refresh is still owed
--   Component/Output
--                   multiroom_output.cpp: Sections (what is done under the lock of the queue) and Output itself (the
--                   two threads, event by event); Buffer, Rendering, Hosting, History and Stopping hold theorems
--   Tests           small inputs, and the theorems at these inputs
--
-- How the code is modelled. A class is a record of its fields. A method is a function from the state to an outcome,
-- a value or an exception with its class and message, beside the state that it leaves: an exception keeps what
-- was written before it. A method has the name of its C++ method; `open` of the client is `open_session`.
-- Strings and buffers are lists of bytes, a null pointer is `none`, `std::map` is a list in the order
-- of its keys, 64-bit arithmetic is written with its modulus, and `int` and `int64_t` are integers, with
-- theorems on their range where the code multiplies. `engine`, `sessions` and `transport` take the interface
-- below them as a parameter, with a state of its own and methods that may throw anything.
--
-- Concurrency. The classes with a mutex hold it for a whole method, so a history is a sequence of calls. The
-- cancellation flag of the sessions is atomic and is stored without the mutex; what other threads store before each
-- load of it is part of the state. The output plugin has two threads, whose sections under the lock are the events of
-- a history; a call of the component's state is one event when it begins and one when it returns or throws, but for
-- `prepare_playback_open` and `cancel_pending_playback_open`, which are one event with their outcome.
--
-- The component's state has three threads and two mutexes. One event is a section under a lock; while the refresh worker
-- scans it holds the transport's lock from one event to the next, and the sections of the others that take that lock wait.
-- The calls of the network within one section are one event, so a cancellation is seen where the next section begins.
-- The output plugin does not stop a stream while it is being opened. The calls of Choices and Notices are modelled one by
-- one; which workers a call starts is part of its result.
--
-- Inputs. What the network shows at each refresh and what the system clock reads are streams in the state of
-- discovery and of the transport. `inet_pton`, `inet_ntop` and the conversion
-- of UTF-8 by Windows are parameters. `strtoul` is written out, with the
-- 32-bit `unsigned long` of Windows.
--
-- Fuel. `append_labels`, `parse_items` and `read_labels` recurse on a count: each pass takes a byte at least, and
-- the count is the number of bytes, so it does not run out. A name follows at most 12 pointers, as in the
-- source.
--
-- Not modelled: the RTSP client and its encryption, the sockets of discovery, floating point (the samples of the host
-- are converted before they reach the model), the foobar2000 and Win32 code (preferences, speaker selector and
-- toolbar, playback metadata), and the probes under src.
pub mod Base
pub mod Device
pub mod Core
pub mod Component
pub mod AirPlay
pub mod Tests
