-- ===== src/FileSystem.antt =====
-- The two-level file system of csc452fuse.c: the structures on the disk file `.disk`, the parser of
-- paths, the helpers that read the disk, and the FUSE handlers.
pub mod Layout
pub mod Path
pub mod Disk
pub mod Reply
pub mod Calls
pub mod Io
pub mod Tree
mod Tests
