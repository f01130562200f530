-- ===== src/Io.antt =====
-- libio: the byte cursor and the primitive readers and writers of the protocols.
pub mod Cursor
pub mod Proto
