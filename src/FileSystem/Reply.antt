-- ===== src/FileSystem/Reply.antt =====
-- What a FUSE handler of csc452fuse.c gives back.
use operating_system_impleme.Prelude.{ℕ}

pub data Errno : Type 0 where
  enoent eperm enametoolong eexist enospc edquot eisdir einval efbig : Errno

-- A handler returns a count or 0, or a negated errno. `stray` is no return: the handler has gone on
-- with a structure on its stack that nothing has filled, and what follows is undefined. `strayed` is a
-- return behind such a step, where the model follows what the handler does with what the stack held.
pub data Reply : Type 0 where
  ok : ℕ → Reply
  err : Errno → Reply
  stray : Reply
  strayed : Reply → Reply
