-- ===== src/Path/Fs.antt =====
-- What path resolution asks of the host: readlink(2), getxattr(2) of the attribute
-- user.iamroot.path-resolution, getcwd(3), the link /proc/self/fd/<fd>, and the regular expressions
-- of IAMROOT_PATH_RESOLUTION_IGNORE, which the bundled copy of jimregexp matches. None of this is
-- the program's own code: it is a parameter of the model.
use iamroot.Base.{ℕ, Bool}
use iamroot.Base.Bytes.{Bytes}
use iamroot.Base.Errno.{Reply}

pub record Fs : Type 0 where
  -- readlink(path): the whole contents of the link; the caller's buffer cuts them.
  pub readlink : Bytes → Reply Bytes
  -- getxattr(path, "user.iamroot.path-resolution"): the whole value.
  pub path_xattr : Bytes → Reply Bytes
  pub getcwd : Reply Bytes
  -- readlink("/proc/self/fd/<fd>")
  pub fd_link : ℕ → Reply Bytes
  -- ignore(path)
  pub ignore : Bytes → Bool
