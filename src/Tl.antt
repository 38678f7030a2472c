-- ===== src/Tl.antt =====
-- piltover/tl: the binary format of the protocol. A stream is the list of the bytes that are left;
-- a read returns its value and the rest, and `none` is a Python exception.
pub mod Codec
pub mod LittleEndian
pub mod Int
pub mod Str
pub mod Vector
pub mod Core
