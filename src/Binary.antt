-- ===== src/Binary.antt =====
-- ditto_screener/binary_analysis.py: the bounded inspection of opaque artifacts. Bytes are numbers
-- below 256.
pub mod Bytes
pub mod Varint
pub mod Fields
pub mod Formats
pub mod Safetensors
pub mod Onnx
pub mod Strings
pub mod Sample
pub mod Detect
mod Tests
