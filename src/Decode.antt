-- ===== src/Decode.antt =====
-- sc-capture/internal/decode: journaled frames become interpreted records. `Record` holds the
-- data, `Stream` one direction of a TCP connection, `Interpret` the naming of a message and
-- `Pipeline` what a frame does to the whole state.
pub mod Record
pub mod Stream
pub mod Interpret
pub mod Pipeline
pub mod Replay
