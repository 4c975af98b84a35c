-- ===== src/Protocol.antt =====
-- packages/ditto-screening-protocol: the wire models of the screening boundary and the verdict's
-- signing payload.
pub mod Patterns
pub mod Result
pub mod Signing
pub mod Valid
