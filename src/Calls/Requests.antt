-- ===== src/Calls/Requests.antt =====
-- One call of an interposed function with its arguments, and a sequence of them.
pub mod Asked
pub mod Made
pub mod Rules
pub mod Served
pub mod Mediated
pub mod Forgiven
use iamroot.Base.{ℕ, List, [], ◌∷◌, Option, some}
use iamroot.Base.Bytes.{Bytes}
use iamroot.Path.Resolution.{Dirfd, AtFlags}
use iamroot.Calls.{HandleFlags, Host, Proc, Ran, back, crashed, stuck}
use iamroot.Calls.Mode.{chmod, fchmod, fchmodat, creat, mkdirat, open_path, openat, mknodat}
use iamroot.Calls.Owner.{chown, lchown, fchown, fchownat}
use iamroot.Calls.Files.{access, faccessat, truncate, rmdir, unlinkat, utimensat, kill}
use iamroot.Calls.Links.{renameat, linkat, symlinkat}
use iamroot.Calls.Rootdir.{chroot, chdir, fchdir}
use iamroot.Calls.Attributes.{getxattr, lgetxattr, setxattr, lsetxattr, removexattr}
use iamroot.Calls.Mode.{lchmod, mkfifoat}
use iamroot.Calls.Lookups.{
  remove_path, euidaccess, statfs, statvfs, ftok, utmpname, scandir, opendir, fopen, freopen,
  name_to_handle_at, fanotify_mark,
}
use iamroot.Calls.Links.{renameat2}
use iamroot.Calls.Times.{utimes}
use iamroot.Calls.Attributes.{lremovexattr, fgetxattr, fsetxattr, fremovexattr}
use iamroot.Calls.Denied.{acct, swapon, swapoff, mount, umount, umount2, unshare}

pub data Request : Type 0 where
  ask_chmod : Option Bytes → ℕ → Request
  ask_fchmod : Dirfd → ℕ → Request
  ask_fchmodat : Dirfd → Option Bytes → ℕ → AtFlags → Request
  ask_creat : Option Bytes → ℕ → Request
  ask_mkdirat : Dirfd → Option Bytes → ℕ → Request
  ask_open : Option Bytes → ℕ → ℕ → Request
  ask_openat : Dirfd → Option Bytes → ℕ → ℕ → Request
  ask_mknodat : Dirfd → Option Bytes → ℕ → Request
  ask_chown : Option Bytes → ℕ → ℕ → Request
  ask_lchown : Option Bytes → ℕ → ℕ → Request
  ask_fchown : Dirfd → ℕ → ℕ → Request
  ask_fchownat : Dirfd → Option Bytes → ℕ → ℕ → AtFlags → Request
  ask_access : Option Bytes → ℕ → Request
  ask_faccessat : Dirfd → Option Bytes → ℕ → ℕ → Request
  ask_truncate : Option Bytes → ℕ → Request
  ask_rmdir : Option Bytes → Request
  ask_unlinkat : Dirfd → Option Bytes → AtFlags → Request
  ask_utimensat : Dirfd → Option Bytes → ℕ → AtFlags → Request
  ask_kill : ℕ → ℕ → Request
  ask_renameat : Dirfd → Option Bytes → Dirfd → Option Bytes → Request
  ask_linkat : Dirfd → Option Bytes → Dirfd → Option Bytes → AtFlags → Request
  ask_symlinkat : Bytes → Dirfd → Option Bytes → Request
  ask_chroot : Option Bytes → Request
  ask_chdir : Option Bytes → Request
  ask_fchdir : Dirfd → Request
  ask_getxattr : Option Bytes → Bytes → Request
  ask_lgetxattr : Option Bytes → Bytes → Request
  ask_setxattr : Option Bytes → Bytes → Bytes → ℕ → Request
  ask_lsetxattr : Option Bytes → Bytes → Bytes → ℕ → Request
  ask_removexattr : Option Bytes → Bytes → Request
  ask_lchmod : Option Bytes → ℕ → Request
  ask_mkfifoat : Dirfd → Option Bytes → ℕ → Request
  ask_remove_path : Option Bytes → Request
  ask_euidaccess : Option Bytes → ℕ → Request
  ask_statfs : Option Bytes → Request
  ask_statvfs : Option Bytes → Request
  ask_ftok : Option Bytes → ℕ → Request
  ask_utmpname : Option Bytes → Request
  ask_scandir : Option Bytes → Request
  ask_opendir : Option Bytes → Request
  ask_fopen : Option Bytes → Bytes → Request
  ask_freopen : Option Bytes → Bytes → ℕ → Request
  ask_name_to_handle_at : Dirfd → Option Bytes → HandleFlags → Request
  ask_fanotify_mark : ℕ → ℕ → ℕ → Dirfd → Option Bytes → Request
  ask_renameat2 : Dirfd → Option Bytes → Dirfd → Option Bytes → ℕ → Request
  ask_utimes : Option Bytes → ℕ → Request
  ask_lremovexattr : Option Bytes → Bytes → Request
  ask_fgetxattr : Dirfd → Bytes → Request
  ask_fsetxattr : Dirfd → Bytes → Bytes → ℕ → Request
  ask_fremovexattr : Dirfd → Bytes → Request
  ask_acct : Option Bytes → Request
  ask_swapon : Option Bytes → ℕ → Request
  ask_swapoff : Option Bytes → Request
  ask_mount : Option Bytes → Option Bytes → Option Bytes → ℕ → Request
  ask_umount : Option Bytes → Request
  ask_umount2 : Option Bytes → ℕ → Request
  ask_unshare : ℕ → Request

module _ (rounds : ℕ) (h : Host) where
  unfoldable pub serve : Request → Proc → Ran ℕ
  serve (ask_chmod path mode) p = chmod rounds h path mode p
  serve (ask_fchmod dfd mode) p = fchmod rounds h dfd mode p
  serve (ask_fchmodat dfd path mode atflags) p = fchmodat rounds h dfd path mode atflags p
  serve (ask_creat path mode) p = creat rounds h path mode p
  serve (ask_mkdirat dfd path mode) p = mkdirat rounds h dfd path mode p
  serve (ask_open path oflags arg) p = open_path rounds h path oflags arg p
  serve (ask_openat dfd path oflags arg) p = openat rounds h dfd path oflags arg p
  serve (ask_mknodat dfd path mode) p = mknodat rounds h dfd path mode p
  serve (ask_chown path owner group) p = chown rounds h path owner group p
  serve (ask_lchown path owner group) p = lchown rounds h path owner group p
  serve (ask_fchown dfd owner group) p = fchown rounds h dfd owner group p
  serve (ask_fchownat dfd path owner group atflags) p =
      fchownat rounds h dfd path owner group atflags p
  serve (ask_access path mode) p = access rounds h path mode p
  serve (ask_faccessat dfd path mode flags) p = faccessat rounds h dfd path mode flags p
  serve (ask_truncate path length) p = truncate rounds h path length p
  serve (ask_rmdir path) p = rmdir rounds h path p
  serve (ask_unlinkat dfd path atflags) p = unlinkat rounds h dfd path atflags p
  serve (ask_utimensat dfd path times atflags) p = utimensat rounds h dfd path times atflags p
  serve (ask_kill pid sig) p = kill h pid sig p
  serve (ask_renameat olddfd oldpath newdfd newpath) p =
      renameat rounds h olddfd oldpath newdfd newpath p
  serve (ask_linkat olddfd oldpath newdfd newpath atflags) p =
      linkat rounds h olddfd oldpath newdfd newpath atflags p
  serve (ask_symlinkat string dfd path) p = symlinkat rounds h string dfd path p
  serve (ask_chroot path) p = chroot rounds h path p
  serve (ask_chdir path) p = chdir rounds h path p
  serve (ask_fchdir dfd) p = fchdir rounds h dfd p
  serve (ask_getxattr path name) p = getxattr rounds h path name p
  serve (ask_lgetxattr path name) p = lgetxattr rounds h path name p
  serve (ask_setxattr path name value flags) p = setxattr rounds h path name value flags p
  serve (ask_lsetxattr path name value flags) p = lsetxattr rounds h path name value flags p
  serve (ask_removexattr path name) p = removexattr rounds h path name p
  serve (ask_lchmod path mode) p = lchmod rounds h path mode p
  serve (ask_mkfifoat dfd path mode) p = mkfifoat rounds h dfd path mode p
  serve (ask_remove_path path) p = remove_path rounds h path p
  serve (ask_euidaccess path mode) p = euidaccess rounds h path mode p
  serve (ask_statfs path) p = statfs rounds h path p
  serve (ask_statvfs path) p = statvfs rounds h path p
  serve (ask_ftok path proj_id) p = ftok rounds h path proj_id p
  serve (ask_utmpname path) p = utmpname rounds h path p
  serve (ask_scandir path) p = scandir rounds h path p
  serve (ask_opendir path) p = opendir rounds h path p
  serve (ask_fopen path mode) p = fopen rounds h path mode p
  serve (ask_freopen path mode stream) p = freopen rounds h path mode stream p
  serve (ask_name_to_handle_at dfd path flags) p = name_to_handle_at rounds h dfd path flags p
  serve (ask_fanotify_mark fd flags mask dfd path) p =
      fanotify_mark rounds h fd flags mask dfd path p
  serve (ask_renameat2 olddfd oldpath newdfd newpath flags) p =
      renameat2 rounds h olddfd oldpath newdfd newpath flags p
  serve (ask_utimes path times) p = utimes rounds h (λ t. 0) path times p
  serve (ask_lremovexattr path name) p = lremovexattr rounds h path name p
  serve (ask_fgetxattr dfd name) p = fgetxattr rounds h dfd name p
  serve (ask_fsetxattr dfd name value flags) p = fsetxattr rounds h dfd name value flags p
  serve (ask_fremovexattr dfd name) p = fremovexattr rounds h dfd name p
  serve (ask_acct path) p = acct path p
  serve (ask_swapon path swapflags) p = swapon path swapflags p
  serve (ask_swapoff path) p = swapoff path p
  serve (ask_mount source target filesystemtype mountflags) p =
      mount source target filesystemtype mountflags p
  serve (ask_umount target) p = umount target p
  serve (ask_umount2 target flags) p = umount2 target flags p
  serve (ask_unshare flags) p = unshare flags p

  -- The program goes on after a request, whatever its result is.
  unfoldable pub next : (Proc → Ran ℕ) → Ran ℕ → Ran ℕ
  next f (back r p) = f p
  next f crashed = crashed
  next f stuck = stuck

  -- A program that makes these requests.
  unfoldable pub serve_all : List Request → Proc → Ran ℕ
  serve_all [] p = back (some 0) p
  serve_all (r ∷ rs) p = next (serve_all rs) (serve r p)
