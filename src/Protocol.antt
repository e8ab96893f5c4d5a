-- ===== src/Protocol.antt =====
-- src/protocol: the documents of the protocol. Their XML form is derived by a crate, and templates are
-- rendered by one.
pub mod Dtd
