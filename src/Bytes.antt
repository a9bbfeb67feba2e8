-- ===== src/Bytes.antt =====
-- Bytes as the C code sees them: little-endian integers, char arrays that hold C strings, and
-- a file that is read and written at byte offsets (fseek with fread or fwrite).
pub mod Words
pub mod Text
pub mod Region
