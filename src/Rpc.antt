-- ===== src/Rpc.antt =====
-- src/libksupport/src/rpc.rs: values sent to and received from the host.
pub mod Tag
pub mod Layout
pub mod Recv
