-- ===== src/Calls.antt =====
-- The library calls that iamroot interposes. A call resolves its path names and hands them to the
-- next library's function: `next_chmod` of chmod.c is the constructor of that name here. The next
-- library and the kernel are the parameter `Host`, which answers by what it was called with before.
pub mod Mode
pub mod Tests
pub mod Owner
pub mod Files
pub mod Links
pub mod Rootdir
pub mod Attributes
pub mod Status
pub mod Lookups
pub mod Times
pub mod Denied
pub mod Search
pub mod Requests
use iamroot.Base.{ℕ, List, ◌∷◌, Bool, Option, none, some, if◌then◌else◌, ◌==◌}
use iamroot.Base.Bytes.{Bytes, path_max}
use iamroot.Base.Errno.{Reply, reply, refuse, eperm}
use iamroot.Path.Fs.{Fs}
use iamroot.Path.Realpath.{Outcome, ok, fail, overrun, out_of_fuel}
use iamroot.Path.Resolution.{Dirfd, AtFlags, PrFlags, path_resolution2, fpath}

-- user.iamroot.mode, user.iamroot.uid and user.iamroot.gid
pub data Attribute : Type 0 where
  mode_attribute : Attribute
  uid_attribute : Attribute
  gid_attribute : Attribute

-- The flags of name_to_handle_at
pub record HandleFlags : Type 0 where
  pub symlink_follow : Bool
  pub other : AtFlags

-- The calls of the next library's functions that may change the host. A name of an extended
-- attribute is given as the interposing function passes it on.
pub data Call : Type 0 where
  next_chmod : Bytes → ℕ → Call
  next_fchmod : Dirfd → ℕ → Call
  next_fchmodat : Dirfd → Bytes → ℕ → AtFlags → Call
  next_creat : Bytes → ℕ → Call
  next_mkdirat : Dirfd → Bytes → ℕ → Call
  next_open : Bytes → ℕ → ℕ → Call
  next_openat : Dirfd → Bytes → ℕ → ℕ → Call
  next_close : ℕ → Call
  next_chown : Bytes → ℕ → ℕ → Call
  next_lchown : Bytes → ℕ → ℕ → Call
  next_fchown : Dirfd → ℕ → ℕ → Call
  next_fchownat : Dirfd → Bytes → ℕ → ℕ → AtFlags → Call
  next_access : Bytes → ℕ → Call
  next_faccessat : Dirfd → Bytes → ℕ → ℕ → Call
  next_truncate : Bytes → ℕ → Call
  next_chdir : Bytes → Call
  next_fchdir : Dirfd → Call
  next_rmdir : Bytes → Call
  next_unlinkat : Dirfd → Bytes → AtFlags → Call
  next_renameat : Dirfd → Bytes → Dirfd → Bytes → Call
  next_linkat : Dirfd → Bytes → Dirfd → Bytes → AtFlags → Call
  next_symlinkat : Bytes → Dirfd → Bytes → Call
  next_utimensat : Dirfd → Bytes → ℕ → AtFlags → Call
  next_getxattr : Bytes → Bytes → Call
  next_lgetxattr : Bytes → Bytes → Call
  next_setxattr : Bytes → Bytes → Bytes → ℕ → Call
  next_lsetxattr : Bytes → Bytes → Bytes → ℕ → Call
  next_removexattr : Bytes → Bytes → Call
  next_inotify_add_watch : ℕ → Bytes → ℕ → Call
  next_kill : ℕ → ℕ → Call
  next_lchmod : Bytes → ℕ → Call
  next_mkfifoat : Dirfd → Bytes → ℕ → Call
  next_remove : Bytes → Call
  next_euidaccess : Bytes → ℕ → Call
  next_statfs : Bytes → Call
  next_statvfs : Bytes → Call
  next_ftok : Bytes → ℕ → Call
  next_utmpname : Bytes → Call
  next_scandir : Bytes → Call
  next_opendir : Bytes → Call
  next_fopen : Bytes → Bytes → Call
  next_freopen : Bytes → Bytes → ℕ → Call
  next_name_to_handle_at : Dirfd → Bytes → HandleFlags → Call
  next_fanotify_mark : ℕ → ℕ → ℕ → Dirfd → Option Bytes → Call
  next_renameat2 : Dirfd → Bytes → Dirfd → Bytes → ℕ → Call
  next_utimes : Bytes → ℕ → Call
  next_fgetxattr : Dirfd → Bytes → Call
  next_fsetxattr : Dirfd → Bytes → Bytes → ℕ → Call
  next_fremovexattr : Dirfd → Bytes → Call
  next_lremovexattr : Bytes → Bytes → Call
  next_listxattr : Bytes → Call
  next_llistxattr : Bytes → Call
  next_flistxattr : Dirfd → Call
  record_attribute : Bytes → Attribute → ℕ → Call
  remove_attribute : Bytes → Attribute → Call

-- The members of struct stat that iamroot changes.
pub record Stat : Type 0 where
  pub st_mode : ℕ
  pub st_uid : ℕ
  pub st_gid : ℕ

-- The host after these calls, the last one first.
pub record Host : Type 0 where
  pub fs : List Call → Fs
  pub answer : List Call → Call → Reply ℕ
  -- next_lstat(path, ...) and next_fstatat(dfd, path, ..., atflags)
  pub lstat : List Call → Bytes → Reply Stat
  pub fstatat : List Call → Dirfd → Bytes → AtFlags → Reply Stat
  -- next_lgetxattr(path, name, ...) of four bytes
  pub attribute : List Call → Bytes → Attribute → Option ℕ
  -- The names that next_listxattr, next_llistxattr and next_flistxattr give
  pub listing : List Call → Call → Reply (List Bytes)
  -- S_ISDIR of next_fstatat(AT_FDCWD, path, ..., AT_SYMLINK_NOFOLLOW), and of next_fstat(fd, ...)
  pub is_directory : List Call → Bytes → Bool
  pub fis_directory : List Call → Dirfd → Bool

-- The process: IAMROOT_ROOT, errno where a call has failed, and the calls that were made.
pub record Proc : Type 0 where
  pub env : Option Bytes
  pub errno : ℕ
  pub log : List Call

-- How a call of iamroot ends: with a result, where `none` is -1, or as path resolution does where it
-- has no result.
pub data Ran {ℓ} (A : Type ℓ) : Type ℓ where
  back : Option A → Proc → Ran A
  crashed : Ran A
  stuck : Ran A

-- siz = ...; if (siz == -1) goto exit;
unfoldable pub on_path {ℓ} : {A : Type ℓ} → Proc → Outcome Bytes → (Bytes → Ran A) → Ran A
on_path p (ok buf) k = k buf
on_path p (fail e) k = back none (record p { errno = e })
on_path p overrun k = crashed
on_path p out_of_fuel k = stuck

-- The state after next_...().
unfoldable pub settle {ℓ} : {A : Type ℓ} → Proc → Call → Reply A → Ran A
settle p c (reply n) = back (some n) (record p { log = c ∷ p.log })
settle p c (refuse e) = back none (record p { errno = e; log = c ∷ p.log })

-- if ((ret == -1) && (errno == EPERM)) ret = __set_errno(errno_save, 0);
unfoldable pub ignore_eperm : ℕ → Ran ℕ → Ran ℕ
ignore_eperm errno_save (back none p) =
    if p.errno == eperm then back (some 0) (record p { errno = errno_save }) else back none p
ignore_eperm errno_save (back (some n) p) = back (some n) p
ignore_eperm errno_save crashed = crashed
ignore_eperm errno_save stuck = stuck

-- What is done to the state before the function returns.
unfoldable pub finally {ℓ} : {A : Type ℓ} → (Proc → Proc) → Ran A → Ran A
finally f (back r p) = back r (f p)
finally f crashed = crashed
finally f stuck = stuck

-- What follows a result that is not -1.
unfoldable pub on_success {ℓ κ} : {A : Type ℓ} {B : Type κ} → (A → Proc → Ran B) → Ran A → Ran B
on_success k (back (some n) p) = k n p
on_success k (back none p) = back none p
on_success k crashed = crashed
on_success k stuck = stuck

-- (mode_t)-1, (uid_t)-1 and (gid_t)-1
abbrev pub unset : ℕ
unset = 4294967295

unfoldable pub or_unset : Option ℕ → ℕ
or_unset none = unset
or_unset (some v) = v

-- __set_mode(path, old, new), __set_uid and __set_gid: errno is left as it was.
unfoldable pub set_attribute : Attribute → Bytes → ℕ → ℕ → Proc → Proc
set_attribute a path old new p = record p {
  log = (if old == new then remove_attribute path a else record_attribute path a old) ∷ p.log;
}

-- The host h, and the rounds that path resolution may take.
module _ (rounds : ℕ) (h : Host) where
  unfoldable pub resolve2 {ℓ} :
      {A : Type ℓ} → Proc → Dirfd → Option Bytes → AtFlags → PrFlags → (Bytes → Ran A) → Ran A
  resolve2 p dfd path atflags prflags k =
      on_path p
        (path_resolution2 rounds (h.fs p.log) p.env p.errno dfd path path_max atflags prflags) k

  -- siz = fpath(fd, buf, sizeof(buf)); if (siz == -1) goto exit;
  unfoldable pub resolve_fd {ℓ} : {A : Type ℓ} → Proc → Dirfd → (Bytes → Ran A) → Ran A
  resolve_fd p dfd k = on_path p (fpath (h.fs p.log) dfd path_max) k

module _ (h : Host) where
  unfoldable pub call : Proc → Call → Ran ℕ
  call p c = settle p c (h.answer p.log c)

  -- __get_mode(path), __get_uid and __get_gid
  unfoldable pub get_attribute : Attribute → Bytes → Proc → ℕ
  get_attribute a path p = or_unset (h.attribute p.log path a)
