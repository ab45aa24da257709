-- ===== src/Scproto.antt =====
-- sc-capture/pkg/scproto: the wire protocol. `Checksum` and `Framing` are the frame layer.
pub mod Checksum
pub mod Framing
pub mod BitReader
pub mod Bodies
pub mod Tables
pub mod Types
