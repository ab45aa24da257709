-- ===== src/Lib.antt =====
-- Verification library for sc-capture, the recorder of Star Conflict's network traffic: what it
-- reads on the wire, which connection a packet belongs to, what records it writes, and what is kept
-- and checked of a session.
--
-- The parts and how they interact. A captured frame goes to the decoding pipeline
-- (sc-capture/internal/decode). A packet library finds its addresses, ports and payload; the flow
-- table (sc-capture/internal/flow) says which connection it belongs to, which end is the server and
-- which way it travels. The payload of a TCP segment goes to the stream of that direction, whose
-- scanner (sc-capture/pkg/scproto) cuts it into messages; a ledger remembers which frame
-- carried which byte. Each message is named by the tables of known elements, two kinds of body are
-- read bit by bit, and one record is written for it, which cites the frames of its bytes. A
-- handoff to a dedicated server goes back to the flow table.
--
-- The files:
--   Base: shared types, tests on numbers, lists over native numbers, byte strings, bit operations,
--     decimal numerals (`itoa` of tables.go, `%d`), 32-bit signed numbers, maps.
--   Scproto/Checksum: sc-capture/pkg/scproto/checksum.go.
--   Scproto/Framing: framing.go. `Next` and `Feed` are `next` and `feed` on a `Scanner`; Spec says
--     what framing means without a buffer, Next relates the scanner to that, Stream holds the loop
--     around `Next`, RoundTrip is about `Build`.
--   Scproto/BitReader: bitreader.go, readers as a state monad with errors.
--   Scproto/Bodies: bodies.go. Scproto/Tables, Scproto/Types: tables.go and types.go.
--   Flow: sc-capture/internal/flow/flow.go. `observe` is `Observe`, `announce_dedicated` is
--     `AnnounceDedicated`, `mark_desync` is `MarkDesync`, each from a `Table` to a new one.
--   Decode: sc-capture/internal/decode/record.go and pipeline.go. Record holds the data and the
--     emission, Stream one direction of a connection, Interpret the naming of messages, Pipeline
--     `Feed`, `feedTCP`, `feedUDP` and `Stats`.
--   Session: sc-capture/internal/session. Clock is clock.go, with the readings of the operating
--     system's clocks as arguments, Disk is disk.go, Bundle is bundle.go (Valid and Create are about
--     the names and about the directory that is made), Metadata the version rule of metadata.go.
--   Coverage: sc-capture/internal/coverage/store.go; Observe is about sightings and loading, Views
--     about `Summarise` and `Filter`.
--   Verify: sc-capture/internal/verify/verify.go, the report as a function of a `Bundle`, which is
--     all that is read from the directory; Contents holds the data, Checks the single checks;
--     Verdict is about the status, Twins and Hidden about a bundle under another name.
--   Journal: sc-capture/internal/journal/segment.go, a `Writer` and the calls on it; Totals
--     and Citations are about what is reported and returned. Journal/Sums: hashes.go.
--   Decode/Replay: sc-capture/internal/decode/replay.go; its child Frames relates a replay to what
--     the journal's writer returned during the capture.
--   Annotate: sc-capture/internal/annotate/marker.go, the format of a marker and the log of a
--     `Beacon`; Annotate/Derived: derived.go.
--   Dashboard: sc-capture/cmd/sccov/main.go, what `build` computes of a coverage store, and
--     `scenarioOf`.
--   Client: sc-capture/internal/client/steam.go, `Detect` and what it reads; Close and Private are about
--     the owner of the account, Home about the home directory.
--   Doctor: sc-capture/internal/doctor/doctor.go, the report as a list of checks; Verdict is about
--     `Failed`.
--   Command: sc-capture/internal/exitcode, and `runCapture` of sc-capture/cmd/sccap/capture.go up to
--     the start of the session with `resolveInterfaces`; Guards is about what is refused.
--   Tests: runs on concrete inputs and the theorems at concrete inputs.
--
-- How state is modelled. A struct that methods change is a record that functions take and return;
-- a pointer into a map is looked up again under its key. A mutex orders the calls and is left out.
-- An unsigned number of w bits is a natural number, with its wrap-around written out. A Go map is an
-- association list; the loops over maps that are modelled change or count each
-- entry alone. Times are numbers of nanoseconds.
--
-- Bounds and fuel. The loop around `Next` runs on fuel, one round more than the buffer has bytes:
-- a message takes twelve bytes at least. The loops of the bit reader run on the number of bits, of characters
-- (`MaxStringLength`) or of shards left.
--
-- Not modelled: the capture source, the process and signal handling, files and directories, JSON
-- and HTTP, which are input and output, and the system calls that ask the host, whose answers are
-- arguments of the definitions (one answer, where the program asks twice); percentages and the
-- sizes on the command line, which are computed in floating point; the packet library, a parameter of `feed`; the embedded
-- JSON tables, a parameter of `load_tables`. `Feed` of the pipeline turns a panic into an
-- error; the one panic that a message could cause is a nil body with a nil error.
pub mod Base
pub mod Scproto
pub mod Flow
pub mod Decode
pub mod Session
pub mod Coverage
pub mod Journal
pub mod Verify
pub mod Annotate
pub mod Client
pub mod Doctor
pub mod Command
pub mod Dashboard
pub mod Tests
