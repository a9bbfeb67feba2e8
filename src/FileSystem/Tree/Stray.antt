-- ===== src/FileSystem/Tree/Stray.antt =====
-- csc452_mknod of csc452fuse.c for a path in a directory that does not exist, on a disk that has none.
use operating_system_impleme.FileSystem.Disk.{Disk}
use operating_system_impleme.FileSystem.Reply.{Reply}
