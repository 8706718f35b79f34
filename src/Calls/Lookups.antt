-- ===== src/Calls/Lookups.antt =====
-- remove.c (`remove_path` here), euidaccess.c, statfs.c, statvfs.c, ftok.c, utmpname.c, scandir.c,
-- opendir.c, fopen.c, freopen.c, name_to_handle_at.c and fanotify_mark.c: a path name is resolved and
-- passed on. Where the source returns a pointer, NULL is `none`, and another pointer is a number.
use iamroot.Base.{ℕ, not, Option, if◌then◌else◌}
use iamroot.Base.Bytes.{Bytes}
use iamroot.Path.Resolution.{Dirfd, cwd, AtFlags, at_none, at_nofollow, pr_none}
use iamroot.Calls.{
  Host, Proc, Ran, HandleFlags, next_remove, next_euidaccess, next_statfs, next_statvfs, next_ftok,
  next_utmpname, next_scandir, next_opendir, next_fopen, next_freopen, next_name_to_handle_at,
  next_fanotify_mark, resolve2, call,
}
use iamroot.Calls.Files.{with_nofollow}

-- if (!(atflags & AT_SYMLINK_FOLLOW)) atflags |= AT_SYMLINK_NOFOLLOW;
unfoldable pub handle_atflags : HandleFlags → AtFlags
handle_atflags f = if not f.symlink_follow then with_nofollow f.other else f.other

module _ (rounds : ℕ) (h : Host) where
  unfoldable pub remove_path : Option Bytes → Proc → Ran ℕ
  remove_path path p =
      resolve2 rounds h p cwd path at_nofollow pr_none λ buf. call h p (next_remove buf)

  unfoldable pub euidaccess : Option Bytes → ℕ → Proc → Ran ℕ
  euidaccess path mode p =
      resolve2 rounds h p cwd path at_none pr_none λ buf. call h p (next_euidaccess buf mode)

  unfoldable pub statfs : Option Bytes → Proc → Ran ℕ
  statfs path p = resolve2 rounds h p cwd path at_none pr_none λ buf. call h p (next_statfs buf)

  unfoldable pub statvfs : Option Bytes → Proc → Ran ℕ
  statvfs path p = resolve2 rounds h p cwd path at_none pr_none λ buf. call h p (next_statvfs buf)

  unfoldable pub ftok : Option Bytes → ℕ → Proc → Ran ℕ
  ftok path proj_id p =
      resolve2 rounds h p cwd path at_none pr_none λ buf. call h p (next_ftok buf proj_id)

  unfoldable pub utmpname : Option Bytes → Proc → Ran ℕ
  utmpname path p = resolve2 rounds h p cwd path at_none pr_none λ buf. call h p (next_utmpname buf)

  unfoldable pub scandir : Option Bytes → Proc → Ran ℕ
  scandir path p = resolve2 rounds h p cwd path at_none pr_none λ buf. call h p (next_scandir buf)

  unfoldable pub opendir : Option Bytes → Proc → Ran ℕ
  opendir path p = resolve2 rounds h p cwd path at_none pr_none λ buf. call h p (next_opendir buf)

  unfoldable pub fopen : Option Bytes → Bytes → Proc → Ran ℕ
  fopen path mode p =
      resolve2 rounds h p cwd path at_none pr_none λ buf. call h p (next_fopen buf mode)

  unfoldable pub freopen : Option Bytes → Bytes → ℕ → Proc → Ran ℕ
  freopen path mode stream p =
      resolve2 rounds h p cwd path at_none pr_none λ buf. call h p (next_freopen buf mode stream)

  unfoldable pub name_to_handle_at : Dirfd → Option Bytes → HandleFlags → Proc → Ran ℕ
  name_to_handle_at dfd path flags p =
      resolve2 rounds h p dfd path (handle_atflags flags) pr_none
        λ buf. call h p (next_name_to_handle_at dfd buf flags)

  -- The path name goes on as it is, and not the one that was resolved.
  unfoldable pub fanotify_mark : ℕ → ℕ → ℕ → Dirfd → Option Bytes → Proc → Ran ℕ
  fanotify_mark fd flags mask dfd path p =
      resolve2 rounds h p cwd path at_none pr_none
        λ buf. call h p (next_fanotify_mark fd flags mask dfd path)
