-- ===== src/Calls/Requests/Asked.antt =====
-- The path names that a request is to have resolved, in this order, and how: from which directory and
-- with which flags; or the descriptor of which the path name is looked up.
use iamroot.Base.{List, [], ◌∷◌, Option}
use iamroot.Base.Bytes.{Bytes}
use iamroot.Path.Resolution.{
  Dirfd, cwd, AtFlags, at_none, at_nofollow, PrFlags, pr_none, pr_nowalkalong,
}
use iamroot.Calls.Mode.{open_atflags, o_new}
use iamroot.Calls.Files.{with_nofollow}
use iamroot.Calls.Lookups.{handle_atflags}
use iamroot.Calls.Requests.{
  Request, ask_chmod, ask_fchmod, ask_fchmodat, ask_creat, ask_mkdirat, ask_open, ask_openat,
  ask_mknodat, ask_chown, ask_lchown, ask_fchown, ask_fchownat, ask_access, ask_faccessat,
  ask_truncate, ask_rmdir, ask_unlinkat, ask_utimensat, ask_kill, ask_renameat, ask_linkat,
  ask_symlinkat, ask_chroot, ask_chdir, ask_fchdir, ask_getxattr, ask_lgetxattr, ask_setxattr,
  ask_lsetxattr, ask_removexattr, ask_lchmod, ask_mkfifoat, ask_remove_path, ask_euidaccess,
  ask_statfs, ask_statvfs, ask_ftok, ask_utmpname, ask_scandir, ask_opendir, ask_fopen, ask_freopen,
  ask_name_to_handle_at, ask_fanotify_mark, ask_renameat2, ask_utimes, ask_lremovexattr,
  ask_fgetxattr, ask_fsetxattr, ask_fremovexattr, ask_acct, ask_swapon, ask_swapoff, ask_mount,
  ask_umount, ask_umount2, ask_unshare,
}

pub data Asked : Type 0 where
  by_path : Dirfd → Option Bytes → AtFlags → PrFlags → Asked
  by_fd : Dirfd → Asked

abbrev one : Dirfd → Option Bytes → AtFlags → PrFlags → List Asked
one dfd path atflags prflags = by_path dfd path atflags prflags ∷ []

abbrev pub asked : Request → List Asked
asked (ask_chmod path mode) = one cwd path at_none pr_none
asked (ask_fchmod dfd mode) = by_fd dfd ∷ []
asked (ask_fchmodat dfd path mode atflags) = one dfd path atflags pr_none
asked (ask_creat path mode) = one cwd path at_none pr_none
asked (ask_mkdirat dfd path mode) = one dfd path at_none pr_none
asked (ask_open path oflags arg) = one cwd path (open_atflags oflags) pr_none
asked (ask_openat dfd path oflags arg) = one dfd path (open_atflags oflags) pr_none
asked (ask_mknodat dfd path mode) = one dfd path (open_atflags o_new) pr_none
asked (ask_chown path owner group) = one cwd path at_none pr_none
asked (ask_lchown path owner group) = one cwd path at_nofollow pr_nowalkalong
asked (ask_fchown dfd owner group) = by_fd dfd ∷ []
asked (ask_fchownat dfd path owner group atflags) = one dfd path atflags pr_none
asked (ask_access path mode) = one cwd path at_none pr_none
asked (ask_faccessat dfd path mode flags) = one dfd path at_none pr_none
asked (ask_truncate path length) = one cwd path at_none pr_none
asked (ask_rmdir path) = one cwd path at_nofollow pr_nowalkalong
asked (ask_unlinkat dfd path atflags) = one dfd path (with_nofollow atflags) pr_nowalkalong
asked (ask_utimensat dfd path times atflags) = one dfd path at_nofollow pr_none
asked (ask_kill pid sig) = []
asked (ask_renameat olddfd oldpath newdfd newpath) =
    by_path olddfd oldpath at_nofollow pr_nowalkalong
    ∷ by_path newdfd newpath at_nofollow pr_nowalkalong
    ∷ []
asked (ask_linkat olddfd oldpath newdfd newpath atflags) =
    by_path olddfd oldpath atflags pr_none ∷ by_path newdfd newpath at_none pr_none ∷ []
asked (ask_symlinkat string dfd path) = one dfd path at_nofollow pr_none
asked (ask_chroot path) = one cwd path at_none pr_none
asked (ask_chdir path) = one cwd path at_none pr_none
asked (ask_fchdir dfd) = by_fd dfd ∷ []
asked (ask_getxattr path name) = one cwd path at_none pr_none
asked (ask_lgetxattr path name) = one cwd path at_nofollow pr_nowalkalong
asked (ask_setxattr path name value flags) = one cwd path at_none pr_none
asked (ask_lsetxattr path name value flags) = one cwd path at_nofollow pr_nowalkalong
asked (ask_removexattr path name) = one cwd path at_none pr_none
asked (ask_lchmod path mode) = one cwd path at_nofollow pr_none
asked (ask_mkfifoat dfd path mode) = one dfd path at_none pr_none
asked (ask_remove_path path) = one cwd path at_nofollow pr_none
asked (ask_euidaccess path mode) = one cwd path at_none pr_none
asked (ask_statfs path) = one cwd path at_none pr_none
asked (ask_statvfs path) = one cwd path at_none pr_none
asked (ask_ftok path proj_id) = one cwd path at_none pr_none
asked (ask_utmpname path) = one cwd path at_none pr_none
asked (ask_scandir path) = one cwd path at_none pr_none
asked (ask_opendir path) = one cwd path at_none pr_none
asked (ask_fopen path mode) = one cwd path at_none pr_none
asked (ask_freopen path mode stream) = one cwd path at_none pr_none
asked (ask_name_to_handle_at dfd path flags) = one dfd path (handle_atflags flags) pr_none
asked (ask_fanotify_mark fd flags mask dfd path) = one cwd path at_none pr_none
asked (ask_renameat2 olddfd oldpath newdfd newpath flags) =
    by_path olddfd oldpath at_nofollow pr_none ∷ by_path newdfd newpath at_nofollow pr_none ∷ []
asked (ask_utimes path times) = one cwd path at_nofollow pr_none
asked (ask_lremovexattr path name) = one cwd path at_nofollow pr_nowalkalong
asked (ask_fgetxattr dfd name) = by_fd dfd ∷ []
asked (ask_fsetxattr dfd name value flags) = by_fd dfd ∷ []
asked (ask_fremovexattr dfd name) = by_fd dfd ∷ []
asked (ask_acct path) = []
asked (ask_swapon path swapflags) = []
asked (ask_swapoff path) = []
asked (ask_mount source target filesystemtype mountflags) = []
asked (ask_umount target) = []
asked (ask_umount2 target flags) = []
asked (ask_unshare flags) = []
