-- ===== src/Converter.antt =====
-- The binary form of values: packages/converter/converter.go.
pub mod Bytes
pub mod Length
pub mod Marshal
pub mod Buffer
pub mod Hex
pub mod Address
mod Tests
