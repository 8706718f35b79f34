-- ===== src/Calls/Rootdir.antt =====
-- chroot.c, chdir.c, fchdir.c and getcwd.c: how the root directory is entered and left.
pub mod Inside
use iamroot.Base.{ℕ, Option, none, some}
use iamroot.Base.Bytes.{Bytes}
use iamroot.Base.Errno.{Reply, reply, refuse}
use iamroot.Path.Resolution.{Dirfd, cwd, at_none, pr_none}
use iamroot.Root.{setrootdir, chrootdir, striprootdir}
use iamroot.Calls.{
  Host, Proc, Ran, back, next_chdir, next_fchdir, on_success, resolve2, resolve_fd, call,
}

-- ret = __setrootdir(buf): no memory is short.
unfoldable pub enter_root : Bytes → Proc → Ran ℕ
enter_root buf p = back (some 0) (record p { env = setrootdir (some buf) })

-- __chrootdir(NULL), of the result of next_getcwd
unfoldable pub leave_root : Proc → Reply Bytes → Ran ℕ
leave_root p (reply dir) = back (some 0) (record p { env = chrootdir p.env dir })
leave_root p (refuse e) = back none (record p { errno = e })

-- ret = next_getcwd(buf, size); ... ret = __striprootdir(ret)
unfoldable pub strip_cwd : Proc → Reply Bytes → Ran Bytes
strip_cwd p (reply dir) = back (some (striprootdir p.env dir)) p
strip_cwd p (refuse e) = back none (record p { errno = e })

module _ (h : Host) where
  -- What follows a change of the working directory.
  unfoldable pub check_root : ℕ → Proc → Ran ℕ
  check_root ret p = leave_root p ((h.fs p.log).getcwd)

  -- getcwd(buf, size), of a buffer that is large enough
  unfoldable pub getcwd : Proc → Ran Bytes
  getcwd p = strip_cwd p ((h.fs p.log).getcwd)

module _ (rounds : ℕ) (h : Host) where
  unfoldable pub chroot : Option Bytes → Proc → Ran ℕ
  chroot path p = resolve2 rounds h p cwd path at_none pr_none λ buf. enter_root buf p

  unfoldable pub chdir : Option Bytes → Proc → Ran ℕ
  chdir path p =
      resolve2 rounds h p cwd path at_none pr_none
        λ buf. on_success (check_root h) (call h p (next_chdir buf))

  unfoldable pub fchdir : Dirfd → Proc → Ran ℕ
  fchdir dfd p =
      resolve_fd rounds h p dfd λ buf. on_success (check_root h) (call h p (next_fchdir dfd))
