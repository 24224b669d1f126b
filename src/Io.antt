-- ===== src/Io.antt =====
-- Byte streams, zerosugar/shared/io: the reader and the writer of binary values.
pub mod Word
pub mod Reader
pub mod Writer
pub mod RoundTrip
pub mod Offset
