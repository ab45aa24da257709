-- ===== src/Session.antt =====
-- sc-capture/internal/session: the two clocks of a session and the free space it runs in.
pub mod Clock
pub mod Bundle
pub mod Disk
pub mod Metadata
