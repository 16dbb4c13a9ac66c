-- ===== src/Msim.antt =====
-- src/msim: the MSIM protocol. `Frame` is the wire format, `Messages` what the rest of the
-- adapter sees of it.
pub mod Frame
pub mod Messages
pub mod Connection
pub mod Tcp
