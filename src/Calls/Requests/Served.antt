-- ===== src/Calls/Requests/Served.antt =====
-- The calls of the host that each request leads to.
use iamroot.Base.{ℕ, refl}
use iamroot.Calls.{Host, Proc}
use iamroot.Calls.Mode.{chmod, fchmod, fchmodat, creat, mkdirat, open_path, mknodat, closed, o_new}
use iamroot.Calls.Owner.{chown, lchown, fchown, fchownat}
use iamroot.Calls.Files.{access, faccessat, truncate, rmdir, unlinkat, utimensat, kill}
use iamroot.Calls.Links.{renameat, linkat, symlinkat}
use iamroot.Calls.Rootdir.{chroot, chdir, fchdir, enter_root, check_root}
use iamroot.Calls.Attributes.{getxattr, lgetxattr, setxattr, lsetxattr, removexattr}
use iamroot.Calls.Mode.{lchmod, mkfifoat}
use iamroot.Calls.Lookups.{
  remove_path, euidaccess, statfs, statvfs, ftok, utmpname, scandir, opendir, fopen, freopen,
  name_to_handle_at, fanotify_mark,
}
use iamroot.Calls.Links.{renameat2}
use iamroot.Calls.Times.{utimes}
use iamroot.Calls.Attributes.{lremovexattr, fgetxattr, fsetxattr, fremovexattr}
use iamroot.Calls.Denied.{acct, swapon, swapoff, mount, umount, umount2, unshare}
use iamroot.Calls.Requests.{
  Request, ask_chmod, ask_fchmod, ask_fchmodat, ask_creat, ask_mkdirat, ask_open, ask_openat,
  ask_mknodat, ask_chown, ask_lchown, ask_fchown, ask_fchownat, ask_access, ask_faccessat,
  ask_truncate, ask_rmdir, ask_unlinkat, ask_utimensat, ask_kill, ask_renameat, ask_linkat,
  ask_symlinkat, ask_chroot, ask_chdir, ask_fchdir, ask_getxattr, ask_lgetxattr, ask_setxattr,
  ask_lsetxattr, ask_removexattr, ask_lchmod, ask_mkfifoat, ask_remove_path, ask_euidaccess,
  ask_statfs, ask_statvfs, ask_ftok, ask_utmpname, ask_scandir, ask_opendir, ask_fopen, ask_freopen,
  ask_name_to_handle_at, ask_fanotify_mark, ask_renameat2, ask_utimes, ask_lremovexattr,
  ask_fgetxattr, ask_fsetxattr, ask_fremovexattr, ask_acct, ask_swapon, ask_swapoff, ask_mount,
  ask_umount, ask_umount2, ask_unshare, serve,
}
use iamroot.Calls.Requests.Made.{Made, Made-Cons, Keeps}
use iamroot.Calls.Requests.Rules.{
  call-Keeps, ignore_eperm-Keeps, set_attribute-Keeps, on_success-Keeps, resolve2-Keeps,
  resolve_fd-Keeps, on_name-Keeps, change_owner-Keeps, openat-Keeps, leave_root-Keeps,
  granted-Keeps,
}

module _ (rounds : ℕ) (h : Host) where
  pub serve-Keeps :
      (r : Request) (p : Proc) → Made rounds h r p p.log → Keeps rounds h r p (serve rounds h r p)
  unfolding serve chmod fchmod fchmodat creat mkdirat open_path mknodat chown lchown fchown fchownat
      access faccessat truncate rmdir unlinkat utimensat kill renameat linkat symlinkat chroot chdir
      fchdir lchmod mkfifoat remove_path euidaccess statfs statvfs ftok utmpname scandir opendir
      fopen freopen name_to_handle_at fanotify_mark renameat2 utimes lremovexattr fgetxattr
      fsetxattr fremovexattr acct swapon swapoff mount umount umount2 unshare getxattr lgetxattr
      setxattr lsetxattr removexattr enter_root check_root closed
  serve-Keeps (ask_chmod path mode) p a =
      resolve2-Keeps rounds h (ask_chmod path mode) p _ path _ _ _ a
        λ buf b. granted-Keeps rounds h (ask_chmod path mode) p buf mode _ _ p b b a
  serve-Keeps (ask_fchmod dfd mode) p a =
      resolve_fd-Keeps rounds h (ask_fchmod dfd mode) p dfd _ a
        λ buf b. granted-Keeps rounds h (ask_fchmod dfd mode) p buf mode _ _ p b refl a
  serve-Keeps (ask_fchmodat dfd path mode atflags) p a =
      resolve2-Keeps rounds h (ask_fchmodat dfd path mode atflags) p _ path _ _ _ a
        λ buf b. granted-Keeps rounds h (ask_fchmodat dfd path mode atflags) p buf mode _ _ p b b a
  serve-Keeps (ask_creat path mode) p a =
      resolve2-Keeps rounds h (ask_creat path mode) p _ path _ _ _ a λ buf b.
        set_attribute-Keeps rounds h (ask_creat path mode) p _ buf _ _ _ b
          (call-Keeps rounds h (ask_creat path mode) p p _ b a)
  serve-Keeps (ask_mkdirat dfd path mode) p a =
      resolve2-Keeps rounds h (ask_mkdirat dfd path mode) p _ path _ _ _ a λ buf b.
        set_attribute-Keeps rounds h (ask_mkdirat dfd path mode) p _ buf _ _ _ b
          (call-Keeps rounds h (ask_mkdirat dfd path mode) p p _ b a)
  serve-Keeps (ask_open path oflags arg) p a =
      resolve2-Keeps rounds h (ask_open path oflags arg) p _ path _ _ _ a λ buf b.
        set_attribute-Keeps rounds h (ask_open path oflags arg) p _ buf _ _ _ b
          (call-Keeps rounds h (ask_open path oflags arg) p p _ b a)
  serve-Keeps (ask_openat dfd path oflags arg) p a =
      openat-Keeps rounds h (ask_openat dfd path oflags arg) p dfd path oflags arg a (λ buf b. b)
  serve-Keeps (ask_mknodat dfd path mode) p a =
      on_success-Keeps rounds h (ask_mknodat dfd path mode) p closed _
        (λ n q k. Made-Cons rounds h (ask_mknodat dfd path mode) p _ q.log tt k)
        (openat-Keeps rounds h (ask_mknodat dfd path mode) p dfd path o_new mode a (λ buf b. b))
  serve-Keeps (ask_chown path owner group) p a =
      resolve2-Keeps rounds h (ask_chown path owner group) p _ path _ _ _ a λ buf b.
        change_owner-Keeps rounds h (ask_chown path owner group) p buf owner group _ p b (λ u g. b)
          a
  serve-Keeps (ask_lchown path owner group) p a =
      resolve2-Keeps rounds h (ask_lchown path owner group) p _ path _ _ _ a λ buf b.
        change_owner-Keeps rounds h (ask_lchown path owner group) p buf owner group _ p b (λ u g. b)
          a
  serve-Keeps (ask_fchown dfd owner group) p a =
      resolve_fd-Keeps rounds h (ask_fchown dfd owner group) p dfd _ a λ buf b.
        change_owner-Keeps rounds h (ask_fchown dfd owner group) p buf owner group _ p b
          (λ u g. refl) a
  serve-Keeps (ask_fchownat dfd path owner group atflags) p a =
      resolve2-Keeps rounds h (ask_fchownat dfd path owner group atflags) p _ path _ _ _ a λ buf b.
        change_owner-Keeps rounds h (ask_fchownat dfd path owner group atflags) p buf owner group _
          p b (λ u g. b) a
  serve-Keeps (ask_access path mode) p a =
      resolve2-Keeps rounds h (ask_access path mode) p _ path _ _ _ a
        λ buf b. call-Keeps rounds h (ask_access path mode) p p _ b a
  serve-Keeps (ask_faccessat dfd path mode flags) p a =
      resolve2-Keeps rounds h (ask_faccessat dfd path mode flags) p _ path _ _ _ a
        λ buf b. call-Keeps rounds h (ask_faccessat dfd path mode flags) p p _ b a
  serve-Keeps (ask_truncate path length) p a =
      resolve2-Keeps rounds h (ask_truncate path length) p _ path _ _ _ a
        λ buf b. call-Keeps rounds h (ask_truncate path length) p p _ b a
  serve-Keeps (ask_rmdir path) p a =
      resolve2-Keeps rounds h (ask_rmdir path) p _ path _ _ _ a
        λ buf b. call-Keeps rounds h (ask_rmdir path) p p _ b a
  serve-Keeps (ask_unlinkat dfd path atflags) p a =
      resolve2-Keeps rounds h (ask_unlinkat dfd path atflags) p _ path _ _ _ a
        λ buf b. call-Keeps rounds h (ask_unlinkat dfd path atflags) p p _ b a
  serve-Keeps (ask_utimensat dfd path times atflags) p a =
      resolve2-Keeps rounds h (ask_utimensat dfd path times atflags) p _ path _ _ _ a
        λ buf b. call-Keeps rounds h (ask_utimensat dfd path times atflags) p p _ b a
  serve-Keeps (ask_kill pid sig) p a =
      ignore_eperm-Keeps rounds h (ask_kill pid sig) p p.errno _
        (call-Keeps rounds h (ask_kill pid sig) p p _ tt a)
  serve-Keeps (ask_renameat olddfd oldpath newdfd newpath) p a =
      resolve2-Keeps rounds h (ask_renameat olddfd oldpath newdfd newpath) p _ oldpath _ _ _ a
        λ old b.
          resolve2-Keeps rounds h (ask_renameat olddfd oldpath newdfd newpath) p _ newpath _ _ _ a
            λ new c. call-Keeps rounds h (ask_renameat olddfd oldpath newdfd newpath) p p _ (b, c) a
  serve-Keeps (ask_linkat olddfd oldpath newdfd newpath atflags) p a =
      resolve2-Keeps rounds h (ask_linkat olddfd oldpath newdfd newpath atflags) p _ oldpath _ _ _ a
        λ old b.
          resolve2-Keeps rounds h (ask_linkat olddfd oldpath newdfd newpath atflags) p _ newpath _ _
            _ a
            λ new c.
              call-Keeps rounds h (ask_linkat olddfd oldpath newdfd newpath atflags) p p _ (b, c) a
  serve-Keeps (ask_symlinkat string dfd path) p a =
      resolve2-Keeps rounds h (ask_symlinkat string dfd path) p _ path _ _ _ a
        λ buf b. call-Keeps rounds h (ask_symlinkat string dfd path) p p _ b a
  serve-Keeps (ask_chroot path) p a =
      resolve2-Keeps rounds h (ask_chroot path) p _ path _ _ _ a λ buf b. a
  serve-Keeps (ask_chdir path) p a =
      resolve2-Keeps rounds h (ask_chdir path) p _ path _ _ _ a λ buf b.
        on_success-Keeps rounds h (ask_chdir path) p (check_root h) _
          (λ n q. leave_root-Keeps rounds h (ask_chdir path) p q _)
          (call-Keeps rounds h (ask_chdir path) p p _ b a)
  serve-Keeps (ask_fchdir dfd) p a = resolve_fd-Keeps rounds h (ask_fchdir dfd) p dfd _ a λ buf b.
      on_success-Keeps rounds h (ask_fchdir dfd) p (check_root h) _
        (λ n q. leave_root-Keeps rounds h (ask_fchdir dfd) p q _)
        (call-Keeps rounds h (ask_fchdir dfd) p p _ refl a)
  serve-Keeps (ask_getxattr path name) p a =
      resolve2-Keeps rounds h (ask_getxattr path name) p _ path _ _ _ a λ buf b.
        on_name-Keeps rounds h (ask_getxattr path name) p p _ _ a
          λ xname. call-Keeps rounds h (ask_getxattr path name) p p _ b a
  serve-Keeps (ask_lgetxattr path name) p a =
      resolve2-Keeps rounds h (ask_lgetxattr path name) p _ path _ _ _ a λ buf b.
        on_name-Keeps rounds h (ask_lgetxattr path name) p p _ _ a
          λ xname. call-Keeps rounds h (ask_lgetxattr path name) p p _ b a
  serve-Keeps (ask_setxattr path name value flags) p a =
      resolve2-Keeps rounds h (ask_setxattr path name value flags) p _ path _ _ _ a λ buf b.
        on_name-Keeps rounds h (ask_setxattr path name value flags) p p _ _ a
          λ xname. call-Keeps rounds h (ask_setxattr path name value flags) p p _ b a
  serve-Keeps (ask_lsetxattr path name value flags) p a =
      resolve2-Keeps rounds h (ask_lsetxattr path name value flags) p _ path _ _ _ a λ buf b.
        on_name-Keeps rounds h (ask_lsetxattr path name value flags) p p _ _ a
          λ xname. call-Keeps rounds h (ask_lsetxattr path name value flags) p p _ b a
  serve-Keeps (ask_removexattr path name) p a =
      resolve2-Keeps rounds h (ask_removexattr path name) p _ path _ _ _ a λ buf b.
        on_name-Keeps rounds h (ask_removexattr path name) p p _ _ a
          λ xname. call-Keeps rounds h (ask_removexattr path name) p p _ b a
  serve-Keeps (ask_lchmod path mode) p a =
      resolve2-Keeps rounds h (ask_lchmod path mode) p _ path _ _ _ a
        λ buf b. granted-Keeps rounds h (ask_lchmod path mode) p buf mode _ _ p b b a
  serve-Keeps (ask_mkfifoat dfd path mode) p a =
      resolve2-Keeps rounds h (ask_mkfifoat dfd path mode) p _ path _ _ _ a λ buf b.
        set_attribute-Keeps rounds h (ask_mkfifoat dfd path mode) p _ buf _ _ _ b
          (call-Keeps rounds h (ask_mkfifoat dfd path mode) p p _ b a)
  serve-Keeps (ask_remove_path path) p a =
      resolve2-Keeps rounds h (ask_remove_path path) p _ path _ _ _ a
        λ buf b. call-Keeps rounds h (ask_remove_path path) p p _ b a
  serve-Keeps (ask_euidaccess path mode) p a =
      resolve2-Keeps rounds h (ask_euidaccess path mode) p _ path _ _ _ a
        λ buf b. call-Keeps rounds h (ask_euidaccess path mode) p p _ b a
  serve-Keeps (ask_statfs path) p a =
      resolve2-Keeps rounds h (ask_statfs path) p _ path _ _ _ a
        λ buf b. call-Keeps rounds h (ask_statfs path) p p _ b a
  serve-Keeps (ask_statvfs path) p a =
      resolve2-Keeps rounds h (ask_statvfs path) p _ path _ _ _ a
        λ buf b. call-Keeps rounds h (ask_statvfs path) p p _ b a
  serve-Keeps (ask_ftok path proj_id) p a =
      resolve2-Keeps rounds h (ask_ftok path proj_id) p _ path _ _ _ a
        λ buf b. call-Keeps rounds h (ask_ftok path proj_id) p p _ b a
  serve-Keeps (ask_utmpname path) p a =
      resolve2-Keeps rounds h (ask_utmpname path) p _ path _ _ _ a
        λ buf b. call-Keeps rounds h (ask_utmpname path) p p _ b a
  serve-Keeps (ask_scandir path) p a =
      resolve2-Keeps rounds h (ask_scandir path) p _ path _ _ _ a
        λ buf b. call-Keeps rounds h (ask_scandir path) p p _ b a
  serve-Keeps (ask_opendir path) p a =
      resolve2-Keeps rounds h (ask_opendir path) p _ path _ _ _ a
        λ buf b. call-Keeps rounds h (ask_opendir path) p p _ b a
  serve-Keeps (ask_fopen path mode) p a =
      resolve2-Keeps rounds h (ask_fopen path mode) p _ path _ _ _ a
        λ buf b. call-Keeps rounds h (ask_fopen path mode) p p _ b a
  serve-Keeps (ask_freopen path mode stream) p a =
      resolve2-Keeps rounds h (ask_freopen path mode stream) p _ path _ _ _ a
        λ buf b. call-Keeps rounds h (ask_freopen path mode stream) p p _ b a
  serve-Keeps (ask_name_to_handle_at dfd path flags) p a =
      resolve2-Keeps rounds h (ask_name_to_handle_at dfd path flags) p _ path _ _ _ a
        λ buf b. call-Keeps rounds h (ask_name_to_handle_at dfd path flags) p p _ b a
  serve-Keeps (ask_fanotify_mark fd flags mask dfd path) p a =
      resolve2-Keeps rounds h (ask_fanotify_mark fd flags mask dfd path) p _ path _ _ _ a
        λ buf b. call-Keeps rounds h (ask_fanotify_mark fd flags mask dfd path) p p _ refl a
  serve-Keeps (ask_renameat2 olddfd oldpath newdfd newpath flags) p a =
      resolve2-Keeps rounds h (ask_renameat2 olddfd oldpath newdfd newpath flags) p _ oldpath _ _ _
        a
        λ old b.
          resolve2-Keeps rounds h (ask_renameat2 olddfd oldpath newdfd newpath flags) p _ newpath _
            _ _ a
            λ new c.
              call-Keeps rounds h (ask_renameat2 olddfd oldpath newdfd newpath flags) p p _ (b, c) a
  serve-Keeps (ask_utimes path times) p a =
      resolve2-Keeps rounds h (ask_utimes path times) p _ path _ _ _ a
        λ buf b. call-Keeps rounds h (ask_utimes path times) p p _ b a
  serve-Keeps (ask_lremovexattr path name) p a =
      resolve2-Keeps rounds h (ask_lremovexattr path name) p _ path _ _ _ a λ buf b.
        on_name-Keeps rounds h (ask_lremovexattr path name) p p _ _ a
          λ xname. call-Keeps rounds h (ask_lremovexattr path name) p p _ b a
  serve-Keeps (ask_fgetxattr dfd name) p a =
      resolve_fd-Keeps rounds h (ask_fgetxattr dfd name) p dfd _ a λ buf b.
        on_name-Keeps rounds h (ask_fgetxattr dfd name) p p _ _ a
          λ xname. call-Keeps rounds h (ask_fgetxattr dfd name) p p _ refl a
  serve-Keeps (ask_fsetxattr dfd name value flags) p a =
      resolve_fd-Keeps rounds h (ask_fsetxattr dfd name value flags) p dfd _ a λ buf b.
        on_name-Keeps rounds h (ask_fsetxattr dfd name value flags) p p _ _ a
          λ xname. call-Keeps rounds h (ask_fsetxattr dfd name value flags) p p _ refl a
  serve-Keeps (ask_fremovexattr dfd name) p a =
      resolve_fd-Keeps rounds h (ask_fremovexattr dfd name) p dfd _ a λ buf b.
        on_name-Keeps rounds h (ask_fremovexattr dfd name) p p _ _ a
          λ xname. call-Keeps rounds h (ask_fremovexattr dfd name) p p _ refl a
  serve-Keeps (ask_acct path) p a = a
  serve-Keeps (ask_swapon path swapflags) p a = a
  serve-Keeps (ask_swapoff path) p a = a
  serve-Keeps (ask_mount source target filesystemtype mountflags) p a = a
  serve-Keeps (ask_umount target) p a = a
  serve-Keeps (ask_umount2 target flags) p a = a
  serve-Keeps (ask_unshare flags) p a = a
