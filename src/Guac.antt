-- ===== src/Guac.antt =====
-- wwt/internal/guac: the Guacamole protocol as the tunnel speaks it.
pub mod Utf8
pub mod Result
pub mod Decimal
pub mod Instruction
pub mod Framing
pub mod Clipboard
pub mod Handshake
