-- ===== src/Calls/Requests/Made.antt =====
-- What the calls of the host for a request may get.
use iamroot.Base.{ℕ, refl, ◌≡◌, ap, ◌++◌, List, [], ◌∷◌, Option}
use iamroot.Base.Bytes.{Bytes, path_max}
use iamroot.Path.Realpath.{ok}
use iamroot.Path.Resolution.{Dirfd, path_resolution2, fpath}
use iamroot.Calls.{
  Host, Proc, Ran, back, crashed, stuck, Call, next_chmod, next_fchmod, next_fchmodat, next_creat,
  next_mkdirat, next_open, next_openat, next_close, next_chown, next_lchown, next_fchown,
  next_fchownat, next_access, next_faccessat, next_truncate, next_chdir, next_fchdir, next_rmdir,
  next_unlinkat, next_renameat, next_linkat, next_symlinkat, next_utimensat, next_getxattr,
  next_lgetxattr, next_setxattr, next_lsetxattr, next_removexattr, next_inotify_add_watch,
  next_kill, next_lchmod, next_mkfifoat, next_remove, next_euidaccess, next_statfs, next_statvfs,
  next_ftok, next_utmpname, next_scandir, next_opendir, next_fopen, next_freopen,
  next_name_to_handle_at, next_fanotify_mark, next_renameat2, next_utimes, next_fgetxattr,
  next_fsetxattr, next_fremovexattr, next_lremovexattr, next_listxattr, next_llistxattr,
  next_flistxattr, record_attribute, remove_attribute,
}
use iamroot.Calls.Requests.{Request}
use iamroot.Calls.Requests.Asked.{Asked, by_path, by_fd, asked}

-- What the calls of one request, which is made in the state p0, may get
module _ (rounds : ℕ) (h : Host) (r : Request) (p0 : Proc) where
  -- What path_resolution2, or fpath for a descriptor, gives then
  abbrev pub Gives : Asked → Bytes → Type 0
  Gives (by_path dfd path atflags prflags) buf =
      path_resolution2 rounds (h.fs p0.log) p0.env p0.errno dfd path path_max atflags prflags
      ≡ ok buf
  Gives (by_fd dfd) buf = fpath (h.fs p0.log) dfd path_max ≡ ok buf

  abbrev First : List Asked → Bytes → Type 0
  First [] buf = ⊥
  First (a ∷ l) buf = Gives a buf

  abbrev Second : List Asked → Bytes → Type 0
  Second [] buf = ⊥
  Second (a ∷ l) buf = First l buf

  abbrev SameFd : List Asked → Dirfd → Type 0
  SameFd [] dfd = ⊥
  SameFd (by_path d path atflags prflags ∷ l) dfd = ⊥
  SameFd (by_fd d ∷ l) dfd = d ≡ dfd

  abbrev SamePath : List Asked → Option Bytes → Type 0
  SamePath [] path = ⊥
  SamePath (by_path d asked_path atflags prflags ∷ l) path = asked_path ≡ path
  SamePath (by_fd d ∷ l) path = ⊥

  -- The path name, and the second one, that the request is to have resolved
  abbrev pub Resolved : Bytes → Type 0
  Resolved buf = First (asked r) buf

  abbrev pub New : Bytes → Type 0
  New buf = Second (asked r) buf

  -- The path names of a call are those that resolving gave, and its descriptor is the one of the
  -- request. fanotify_mark gets the path name of the request as it is. The text of a link is no path
  -- name here, and no request calls inotify_add_watch or lists attributes.
  abbrev pub Mediated : Call → Type 0
  Mediated (next_chmod buf m) = Resolved buf
  Mediated (next_fchmodat d buf m f) = Resolved buf
  Mediated (next_creat buf m) = Resolved buf
  Mediated (next_mkdirat d buf m) = Resolved buf
  Mediated (next_open buf f m) = Resolved buf
  Mediated (next_openat d buf f m) = Resolved buf
  Mediated (next_chown buf u g) = Resolved buf
  Mediated (next_lchown buf u g) = Resolved buf
  Mediated (next_fchownat d buf u g f) = Resolved buf
  Mediated (next_access buf m) = Resolved buf
  Mediated (next_faccessat d buf m f) = Resolved buf
  Mediated (next_truncate buf n) = Resolved buf
  Mediated (next_chdir buf) = Resolved buf
  Mediated (next_rmdir buf) = Resolved buf
  Mediated (next_unlinkat d buf f) = Resolved buf
  Mediated (next_renameat d old e new) = Resolved old × New new
  Mediated (next_linkat d old e new f) = Resolved old × New new
  Mediated (next_symlinkat s d buf) = Resolved buf
  Mediated (next_utimensat d buf t f) = Resolved buf
  Mediated (next_getxattr buf n) = Resolved buf
  Mediated (next_lgetxattr buf n) = Resolved buf
  Mediated (next_setxattr buf n v f) = Resolved buf
  Mediated (next_lsetxattr buf n v f) = Resolved buf
  Mediated (next_removexattr buf n) = Resolved buf
  Mediated (record_attribute buf a v) = Resolved buf
  Mediated (remove_attribute buf a) = Resolved buf
  Mediated (next_fchmod d m) = SameFd (asked r) d
  Mediated (next_close n) = Unit
  Mediated (next_fchown d u g) = SameFd (asked r) d
  Mediated (next_fchdir d) = SameFd (asked r) d
  Mediated (next_inotify_add_watch n path m) = ⊥
  Mediated (next_kill n s) = Unit
  Mediated (next_lchmod buf m) = Resolved buf
  Mediated (next_mkfifoat d buf m) = Resolved buf
  Mediated (next_remove buf) = Resolved buf
  Mediated (next_euidaccess buf m) = Resolved buf
  Mediated (next_statfs buf) = Resolved buf
  Mediated (next_statvfs buf) = Resolved buf
  Mediated (next_ftok buf n) = Resolved buf
  Mediated (next_utmpname buf) = Resolved buf
  Mediated (next_scandir buf) = Resolved buf
  Mediated (next_opendir buf) = Resolved buf
  Mediated (next_fopen buf m) = Resolved buf
  Mediated (next_freopen buf m s) = Resolved buf
  Mediated (next_name_to_handle_at d buf f) = Resolved buf
  Mediated (next_fanotify_mark n f m d path) = SamePath (asked r) path
  Mediated (next_renameat2 d old e new f) = Resolved old × New new
  Mediated (next_utimes buf t) = Resolved buf
  Mediated (next_fgetxattr d n) = SameFd (asked r) d
  Mediated (next_fsetxattr d n v f) = SameFd (asked r) d
  Mediated (next_fremovexattr d n) = SameFd (asked r) d
  Mediated (next_lremovexattr buf n) = Resolved buf
  Mediated (next_listxattr buf) = ⊥
  Mediated (next_llistxattr buf) = ⊥
  Mediated (next_flistxattr d) = ⊥

  abbrev pub AllMediated : List Call → Type 0
  AllMediated [] = Unit
  AllMediated (c ∷ log) = Mediated c × AllMediated log

  -- These calls were made behind those of p0, and each is mediated.
  pub Made : List Call → Type 0
  Made log = (new : List Call) × (log ≡ new ++ p0.log) × AllMediated new

  pub Made-refl : Made p0.log
  unfolding Made
  Made-refl = ([], refl, tt)

  pub Made-Cons : (c : Call) (log : List Call) → Mediated c → Made log → Made (c ∷ log)
  unfolding Made
  Made-Cons c log m (new, e, a) = (c ∷ new, ap (λ l. c ∷ l) e, (m, a))

  -- If there is a result, the calls that were made are mediated.
  abbrev pub Keeps {ℓ} : {A : Type ℓ} → Ran A → Type 0
  Keeps (back r p) = Made p.log
  Keeps crashed = Unit
  Keeps stuck = Unit
