-- ===== src/Providers.antt =====
-- packages/providers/src: the decoding of a provider's stream.
pub mod Sse
