-- ===== src/Calls/Files.antt =====
-- access.c, faccessat.c, truncate.c, rmdir.c, unlinkat.c, unlink.c, utimensat.c,
-- inotify_add_watch.c and kill.c.
pub mod Watched
use iamroot.Base.{ℕ, true, Option, some}
use iamroot.Base.Bytes.{Bytes}
use iamroot.Path.Resolution.{Dirfd, cwd, AtFlags, at_none, at_nofollow, pr_none, pr_nowalkalong}
use iamroot.Calls.{
  Host, Proc, Ran, next_access, next_faccessat, next_truncate, next_rmdir, next_unlinkat,
  next_utimensat, next_inotify_add_watch, next_kill, ignore_eperm, resolve2, call,
}

-- atflags | AT_SYMLINK_NOFOLLOW
abbrev pub with_nofollow : AtFlags → AtFlags
with_nofollow f = record f { symlink_nofollow = true }

module _ (h : Host) where
  unfoldable pub kill : ℕ → ℕ → Proc → Ran ℕ
  kill pid sig p = ignore_eperm p.errno (call h p (next_kill pid sig))

module _ (rounds : ℕ) (h : Host) where
  unfoldable pub access : Option Bytes → ℕ → Proc → Ran ℕ
  access path mode p =
      resolve2 rounds h p cwd path at_none pr_none λ buf. call h p (next_access buf mode)

  unfoldable pub faccessat : Dirfd → Option Bytes → ℕ → ℕ → Proc → Ran ℕ
  faccessat dfd path mode flags p =
      resolve2 rounds h p dfd path at_none pr_none
        λ buf. call h p (next_faccessat dfd buf mode flags)

  unfoldable pub truncate : Option Bytes → ℕ → Proc → Ran ℕ
  truncate path length p =
      resolve2 rounds h p cwd path at_none pr_none λ buf. call h p (next_truncate buf length)

  unfoldable pub rmdir : Option Bytes → Proc → Ran ℕ
  rmdir path p =
      resolve2 rounds h p cwd path at_nofollow pr_nowalkalong λ buf. call h p (next_rmdir buf)

  unfoldable pub unlinkat : Dirfd → Option Bytes → AtFlags → Proc → Ran ℕ
  unlinkat dfd path atflags p =
      resolve2 rounds h p dfd path (with_nofollow atflags) pr_nowalkalong
        λ buf. call h p (next_unlinkat dfd buf atflags)

  unfoldable pub unlink : Option Bytes → Proc → Ran ℕ
  unlink path p = unlinkat cwd path at_none p

  -- The times are one number.
  unfoldable pub utimensat : Dirfd → Option Bytes → ℕ → AtFlags → Proc → Ran ℕ
  utimensat dfd path times atflags p =
      resolve2 rounds h p dfd path at_nofollow pr_none
        λ buf. call h p (next_utimensat dfd buf times atflags)

  -- The path name goes on as it is, and not the one that was resolved.
  unfoldable pub inotify_add_watch : ℕ → Bytes → ℕ → Proc → Ran ℕ
  inotify_add_watch fd path mask p =
      resolve2 rounds h p cwd (some path) at_none pr_none
        λ buf. call h p (next_inotify_add_watch fd path mask)
