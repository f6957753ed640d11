-- ===== src/Embedded.antt =====
-- crates/embedded/src: the handler of the embedded profile and its transport.
pub mod StaticRouter
pub mod Transport
